-- ===== src/Bootloader/Matching.antt =====
-- The loop over the plugins of an entry: which calls it makes.
use ps3_plugins.Base.{
  ℕ, ◌≡◌, refl, sym, ap, ◌∙◌, inl, inr, Bool, none, some, List, [], ◌∷◌, ◌++◌, append_assoc,
  append-nil, Bytes, Option-cases,
}
use ps3_plugins.ProgramArgs.{ProgramArgs}
use ps3_plugins.Bootloader.{PrxLoader, PrxCall, load, start, LoadPluginData, load_plugin, load_loop}

-- What `sys_prx_load_module` is asked for, and the modules that are started, with their arguments.
abbrev pub loads : List PrxCall → List Bytes
loads [] = []
loads (load path ∷ calls) = path ∷ loads calls
loads (start prx arg ∷ calls) = loads calls

abbrev pub starts : List PrxCall → List (ℕ × ProgramArgs)
starts [] = []
starts (load path ∷ calls) = starts calls
starts (start prx arg ∷ calls) = (prx, arg) ∷ starts calls

-- The modules that the system gives for the paths: the first is started with `arg`, and each other
-- one with what those before it leave of that.
abbrev pub started : PrxLoader → ProgramArgs → List Bytes → List (ℕ × ProgramArgs)
started loader arg [] = []
started loader arg (path ∷ paths) = elim (loader.load_module path) [
  | none ↦ started loader arg paths
  | some prx ↦ (prx, arg) ∷ started loader (loader.start_module prx arg).1 paths
]

loads-append : (xs ys : List PrxCall) → loads (xs ++ ys) ≡ loads xs ++ loads ys
loads-append [] ys = refl
loads-append (load path ∷ xs) ys = ap (λ l. path ∷ l) (loads-append xs ys)
loads-append (start prx arg ∷ xs) ys = loads-append xs ys

starts-append : (xs ys : List PrxCall) → starts (xs ++ ys) ≡ starts xs ++ starts ys
starts-append [] ys = refl
starts-append (load path ∷ xs) ys = starts-append xs ys
starts-append (start prx arg ∷ xs) ys = ap (λ l. (prx, arg) ∷ l) (starts-append xs ys)

module _ (loader : PrxLoader) where
  pub load_loop-append :
      (xs ys : List Bytes) (d : LoadPluginData)
      → load_loop loader (xs ++ ys) d ≡ load_loop loader ys (load_loop loader xs d)
  unfolding load_loop
  load_loop-append [] ys d = refl
  load_loop-append (x ∷ xs) ys d = load_loop-append xs ys (load_plugin loader x d)

  load_plugin_found :
      (path : Bytes) (b : Bool) (d : LoadPluginData)
      → load_plugin loader path (record d { found_match = b })
        ≡ record (load_plugin loader path d) { found_match = b }
  unfolding load_plugin
  load_plugin_found path b d = elim (Option-cases (loader.load_module path)) [
    | inl e ↦ rw (e, load_plugin) refl
    | inr (prx, e) ↦ rw (e, load_plugin) refl
  ]

  -- The loop does not look at the flag.
  pub load_loop_found :
      (paths : List Bytes) (b : Bool) (d : LoadPluginData)
      → load_loop loader paths (record d { found_match = b })
        ≡ record (load_loop loader paths d) { found_match = b }
  unfolding load_loop
  load_loop_found [] b d = refl
  load_loop_found (path ∷ paths) b d =
      ap (load_loop loader paths) (load_plugin_found path b d)
      ∙ load_loop_found paths b (load_plugin loader path d)

  load_plugin_kept :
      (path : Bytes) (d : LoadPluginData)
      → ((load_plugin loader path d).game_info ≡ d.game_info)
        × ((load_plugin loader path d).found_match ≡ d.found_match)
  unfolding load_plugin
  load_plugin_kept path d = elim (Option-cases (loader.load_module path)) [
    | inl e ↦ rw (e, load_plugin) (refl, refl)
    | inr (prx, e) ↦ rw (e, load_plugin) (refl, refl)
  ]

  pub load_loop_kept :
      (paths : List Bytes) (d : LoadPluginData)
      → ((load_loop loader paths d).game_info ≡ d.game_info)
        × ((load_loop loader paths d).found_match ≡ d.found_match)
  unfolding load_loop
  load_loop_kept [] d = (refl, refl)
  load_loop_kept (path ∷ paths) d =
      let (g, f) = load_plugin_kept path d in
      let (gs, fs) = load_loop_kept paths (load_plugin loader path d) in (gs ∙ g, fs ∙ f)

  -- Every path is asked for once and in order, and what is loaded is started.
  pub load_loop_lem :
      (paths : List Bytes) (d : LoadPluginData)
      → (loads (load_loop loader paths d).calls ≡ loads d.calls ++ paths)
        × (starts (load_loop loader paths d).calls
            ≡ starts d.calls ++ started loader d.main_arg paths)
  unfolding load_loop load_plugin
  load_loop_lem [] d = (sym (append-nil _), sym (append-nil _))
  load_loop_lem (path ∷ paths) d = elim (Option-cases (loader.load_module path)) [
    | inl e ↦
        rw (e, load_loop, load_plugin, started)
          (
            (load_loop_lem paths (record d { calls = d.calls ++ (load path ∷ []) })).0
                ∙ ap (λ l. l ++ paths) (loads-append d.calls (load path ∷ []))
                ∙ append_assoc (loads d.calls) (path ∷ []) paths,
            (load_loop_lem paths (record d { calls = d.calls ++ (load path ∷ []) })).1
                ∙ ap (λ l. l ++ started loader d.main_arg paths)
                    (starts-append d.calls (load path ∷ []) ∙ append-nil _),
          )
    | inr (prx, e) ↦
        let left = (loader.start_module prx d.main_arg).1 in
        let calls = load path ∷ start prx d.main_arg ∷ [] in
        let next : LoadPluginData = record d { main_arg = left; calls = d.calls ++ calls } in
        rw (e, load_loop, load_plugin, started)
          (
            (load_loop_lem paths next).0
                ∙ ap (λ l. l ++ paths) (loads-append d.calls calls)
                ∙ append_assoc (loads d.calls) (path ∷ []) paths,
            (load_loop_lem paths next).1
                ∙ ap (λ l. l ++ started loader left paths) (starts-append d.calls calls)
                ∙ append_assoc (starts d.calls) ((prx, d.main_arg) ∷ [])
                    (started loader left paths),
          )
  ]
