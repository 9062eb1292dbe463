-- ===== src/Config/Start/Reload.antt =====
-- A configuration that `Write` saved is the one that `Load` opens after a restart.
use wg_busy.Prelude.{
  ◌≡◌, ◌≢◌, inl, inr, refl, sym, ap, subst, ◌∙◌, false, List, [], ◌∷◌, Option, some, Text, arith,
  All,
}
use wg_busy.Models.{AppConfig, VpnGateway}
use wg_busy.Config.{Store, Env, content}
use wg_busy.Config.Disk.Atomic.{Files}
use wg_busy.Config.Live.Quiet.{Quiet}
use wg_busy.Config.Tables.{some_missing, ensure_vpn_gateway_routing_table_ids}
use wg_busy.Config.Tables.Fresh.{ensure_nonzero, ensure_complete}
use wg_busy.Config.Write.{
  WriteResult, applied, saved_only, mutation_failed, invalid, not_saved, not_rendered, not_restored,
  write,
}
use wg_busy.Config.Write.Outcome.{Committed, Outcome, write-Outcome}
use wg_busy.Config.Write.Saved.{PathsApart, Saved, SavedUnless, write-Saved}
use wg_busy.Config.Start.{opened, started, completed, parsed_config, read_config, load}

-- The YAML of a configuration is read back as this configuration.
abbrev pub ReadsBack : {W : Type 0} → Env W → AppConfig → Type 0
ReadsBack env cfg = (text : Text) × (env.marshal cfg ≡ some text) × (env.unmarshal text ≡ some cfg)

-- What is in a file is what `os.ReadFile` gives.
abbrev pub ReadsFiles : {W : Type 0} → Env W → (W → Text → Option Text) → Type 0
ReadsFiles {W} env contents =
    (w : W) (p text : Text) → contents w p ≡ some text → env.read_file w p ≡ content text

-- `Write` returned no error, or an `ApplyError`.
abbrev pub IsCommitted : WriteResult → Type 0
IsCommitted applied = Unit
IsCommitted (saved_only e es) = Unit
IsCommitted (mutation_failed e) = ⊥
IsCommitted (invalid e es) = ⊥
IsCommitted (not_saved e) = ⊥
IsCommitted (not_rendered e) = ⊥
IsCommitted (not_restored e f) = ⊥

none_missing :
    (gs : List VpnGateway) → All (λ g. g.routing_table_id ≢ 0) gs → some_missing gs ≡ false
unfolding some_missing
none_missing [] h = refl
none_missing (g ∷ gs) h = ground (arith, none_missing gs)

ensure_set :
    (from cfg : AppConfig)
    → cfg ≡ ensure_vpn_gateway_routing_table_ids from
    → All (λ g. g.routing_table_id ≢ 0) cfg.vpn_gateways
ensure_set from cfg e =
    subst (λ x. All (λ g. g.routing_table_id ≢ 0) x.vpn_gateways) (sym e) (ensure_nonzero from)

module _ {W : Type 0} {env : Env W} (contents : W → Text → Option Text) (files : Files env contents)
    (reads : ReadsFiles env contents) where
  Committed-file :
      (mutate : AppConfig → AppConfig × Option Text) (s t : Store) (w0 w : W) (r : WriteResult)
      → IsCommitted r
      → Outcome env mutate s w0 (t, w, r)
      → SavedUnless contents files (t, w, r)
      → Committed env mutate s w0 t w × (contents w t.config_path ≡ env.marshal t.config)
  Committed-file mutate s t w0 w applied i o (inl dirty) = cc (dirty, o.0.3)
  Committed-file mutate s t w0 w applied i o (inr same) = (o.0, same)
  Committed-file mutate s t w0 w (saved_only e es) i o (inl dirty) = cc (dirty, o.3)
  Committed-file mutate s t w0 w (saved_only e es) i o (inr same) = (o, same)
  Committed-file mutate s t w0 w (mutation_failed e) i o h = absurd i
  Committed-file mutate s t w0 w (invalid e es) i o h = absurd i
  Committed-file mutate s t w0 w (not_saved e) i o h = absurd i
  Committed-file mutate s t w0 w (not_rendered e) i o h = absurd i
  Committed-file mutate s t w0 w (not_restored e f) i o h = absurd i

  completed_set :
      (w : W) (path wg_path : Text) (cfg : AppConfig)
      → some_missing cfg.vpn_gateways ≡ false
      → completed env path wg_path w cfg
        ≡ (w, opened (started path wg_path (ensure_vpn_gateway_routing_table_ids cfg)))
  unfolding completed
  completed_set w path wg_path cfg set = simp set refl

  load_complete :
      (w : W) (path wg_path : Text) (cfg : AppConfig)
      → contents w path ≡ env.marshal cfg
      → ReadsBack env cfg
      → some_missing cfg.vpn_gateways ≡ false
      → ensure_vpn_gateway_routing_table_ids cfg ≡ cfg
      → load env path wg_path w ≡ (w, opened (started path wg_path cfg))
  unfolding load read_config parsed_config
  load_complete w path wg_path cfg file (text, written, read) set full =
      ap (read_config env path wg_path w) (reads w path text (file ∙ written))
      ∙ ap (parsed_config env path wg_path w) read
      ∙ completed_set w path wg_path cfg set
      ∙ ap (λ x. (w, opened (started path wg_path x))) full

  -- A restart of the program after a `Write` that committed its change opens exactly the configuration
  -- that the store had, and writes nothing. Before the `Write` the file had the configuration of the
  -- store, the paths are different, the commands leave the file alone, and YAML is read back as it
  -- was written.
  pub load-write :
      (mutate : AppConfig → AppConfig × Option Text) (s : Store) (w : W) (wg_path : Text)
      → Quiet env (λ x. contents x s.config_path)
      → PathsApart s
      → Saved contents files s w
      → IsCommitted (write env mutate s w).2
      → ReadsBack env (write env mutate s w).0.config
      → load env (write env mutate s w).0.config_path wg_path (write env mutate s w).1 ≡ (
        (write env mutate s w).1,
        opened
            (started (write env mutate s w).0.config_path wg_path (write env mutate s w).0.config),
      )
  load-write mutate s w wg_path quiet apart saved ok back =
      let r = write env mutate s w in
      let both =
        Committed-file mutate s r.0 w r.1 r.2 ok (write-Outcome env mutate s w)
          (write-Saved contents files s quiet apart mutate w saved) in
      let set = ensure_set (mutate s.config).0 r.0.config both.0.1 in
      load_complete r.1 r.0.config_path wg_path r.0.config both.1 back
        (none_missing r.0.config.vpn_gateways set) (ensure_complete r.0.config set)
