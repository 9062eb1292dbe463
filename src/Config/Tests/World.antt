-- ===== src/Config/Tests/World.antt =====
-- A host for the tests: files by path, and commands that all succeed, with wg0 not running.
use wg_busy.Prelude.{
  ◌≡◌, ◌≢◌, refl, sym, ap, ◌∙◌, Bool, true, false, List, [], ◌∷◌, Option, none, some, Text, codes,
  lookup, put, remove, lookup-put, lookup-put_other, lookup_other,
}
use wg_busy.Models.{AppConfig}
use wg_busy.Samples.{valid_config}
use wg_busy.Config.{Store, Env, ReadResult, not_exist, content}
use wg_busy.Config.Disk.Atomic.{Files}
use wg_busy.Config.Live.Quiet.{Quiet}
use wg_busy.Config.Start.{started}
use wg_busy.Config.Start.Reload.{ReadsFiles}

abbrev pub Disk : Type 0
Disk = List (Text × Text)

abbrev pub contents : Disk → Text → Option Text
contents w p = lookup w p

abbrev read_result : Option Text → ReadResult
read_result none = not_exist
read_result (some t) = content t

abbrev moved : Disk → Text → Text → Option Text → Disk × Bool
moved w a b none = (w, false)
moved w a b (some t) = (put b t (remove w a), true)

-- The YAML of every configuration is the same text, which stands for `read_back`.
abbrev pub disk_env : AppConfig → Env Disk
disk_env read_back = record {
  marshal = λ cfg. some (codes "yaml");
  unmarshal = λ text. some read_back;
  read_file = λ w p. read_result (lookup w p);
  make_dir_of = λ w p. (w, true);
  write_file = λ w p text. (put p text w, true);
  rename = λ w a b. moved w a b (lookup w a);
  run = λ w name args stdin. (w, [], some (codes "exit status 1"));
  is_up = λ w. false;
  exec = λ w command. (w, true);
  configure_bgp = λ w cfg. (w, none);
  on_change = λ w cfg. w;
  zt_gateways = λ w. [];
  bgp_advertised = λ w. [];
  lan_env = [];
  range_over = λ ps. ps;
}

moved_done :
    (w : Disk) (a b : Text) (o : Option Text)
    → lookup w a ≡ o
    → (moved w a b o).1 ≡ true
    → contents (moved w a b o).0 b ≡ contents w a
moved_done w a b none e h = cc
moved_done w a b (some t) e h = lookup-put (remove w a) b t ∙ sym e

moved_failed :
    (w : Disk) (a b q : Text) (o : Option Text)
    → (moved w a b o).1 ≡ false
    → contents (moved w a b o).0 q ≡ contents w q
moved_failed w a b q none h = refl
moved_failed w a b q (some t) h = cc

moved_other :
    (w : Disk) (a b q : Text) (o : Option Text)
    → a ≢ q
    → b ≢ q
    → contents (moved w a b o).0 q ≡ contents w q
moved_other w a b q none m n = refl
moved_other w a b q (some t) m n = lookup-put_other (remove w a) b q t n ∙ lookup_other w a q m

pub disk_files : (cfg : AppConfig) → Files (disk_env cfg) contents
disk_files cfg = record {
  make_dir_same = λ w p q. refl;
  write_other = λ w p text q n. lookup-put_other w p q text n;
  write_done = λ w p text h. lookup-put w p text;
  rename_done = λ w a b h. moved_done w a b (lookup w a) refl h;
  rename_failed = λ w a b q h. moved_failed w a b q (lookup w a) h;
  rename_other = λ w a b q m n. moved_other w a b q (lookup w a) m n;
}

pub disk-Quiet : (cfg : AppConfig) (path : Text) → Quiet (disk_env cfg) (λ w. contents w path)
disk-Quiet cfg path = record {
  run_same = λ w name args stdin. refl;
  exec_same = λ w command. refl;
  bgp_same = λ w cfg. refl;
  change_same = λ w cfg. refl;
}

pub disk_reads : (cfg : AppConfig) → ReadsFiles (disk_env cfg) contents
disk_reads cfg w p text h = ap read_result h

abbrev pub config_file : Text
config_file = codes "config.yaml"

abbrev pub wg_file : Text
wg_file = codes "wg0.conf"

abbrev pub sample_store : Store
sample_store = started config_file wg_file valid_config

abbrev pub sample_disk : Disk
sample_disk = (config_file, codes "yaml") ∷ []
