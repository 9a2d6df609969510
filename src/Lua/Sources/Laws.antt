-- ===== src/Lua/Sources/Laws.antt =====
-- engine.rs: what `PluginSources::load` reads.
use dgsw_class_pg_proxy.Prelude.{
  ◌≡◌, refl, sym, ◌∙◌, String, false, ◌⊎◌, inl, inr, Option, none, some, List, [], ◌∷◌, In, arith,
  str_eq, str_eq_iff, str_eq_ne, Bool-cases, Option-cases, ◌≢◌,
}
use dgsw_class_pg_proxy.Prelude.Maps.{StrMap, lookup, insert, lookup-insert}
use dgsw_class_pg_proxy.Config.{PluginsConfig}
use dgsw_class_pg_proxy.Lua.Sources.{join, load_files, load}

abbrev or_else : Option String → Option String → Option String
or_else none b = b
or_else (some a) b = some a

or_else-none : (o : Option String) → or_else o none ≡ o
or_else-none none = refl
or_else-none (some a) = refl

or_else_self : (o : Option String) → or_else o o ≡ o
or_else_self none = refl
or_else_self (some a) = refl

module _ (read_to_string : String → Option String) (dir : String) where
  -- A name that the loop has read stands for its file; any other is as before.
  load_files-other :
      (name : String) (names : List String) (sources : StrMap String)
      → ¬ In name names
      → lookup name (load_files read_to_string dir names sources) ≡ lookup name sources
  unfolding load_files
  load_files-other name [] sources h = refl
  load_files-other name (n ∷ names) sources h =
      let ne : str_eq n name ≡ false = str_eq_ne n name (λ e. h (inl (sym e))) in
      elim (Option-cases (read_to_string (join dir n))) [
        | inl e ↦ rw e (load_files-other name names sources (λ m. h (inr m)))
        | inr (src, e) ↦ rw e (
            load_files-other name names (insert n src sources) (λ m. h (inr m))
            ∙ (lookup-insert n name src sources ∙ rw ne))
      ]

  abbrev file : String → Option String
  file name = read_to_string (join dir name)

  -- One round of the loop.
  abbrev round : String → StrMap String → StrMap String
  round n sources = elim (file n) [ some src ↦ insert n src sources | none ↦ sources ]

  -- What `name` stands for after a round.
  lookup-round :
      (n name : String) (sources : StrMap String)
      → ((n ≡ name) × (lookup name (round n sources) ≡ or_else (file name) (lookup name sources)))
        ⊎ ((n ≢ name) × (lookup name (round n sources) ≡ lookup name sources))
  lookup-round n name sources = elim (Bool-cases (str_eq n name)) [
    | inl same ↦
        let e : n ≡ name = (str_eq_iff n name).0 same in
        inl (
          e,
          elim (Option-cases (file n)) [
            | inl h ↦ ground arith
            | inr (src, h) ↦ ground (arith, lookup-insert n name src sources)
          ],
        )
    | inr other ↦ inr (
      ground (arith, str_eq_iff n name),
      elim (Option-cases (file n)) [
        | inl h ↦ ground arith
        | inr (src, h) ↦ ground (arith, lookup-insert n name src sources)
      ],
    )
  ]

  load_files-keeps :
      (name : String) (names : List String) (sources : StrMap String)
      → lookup name sources ≡ file name
      → lookup name (load_files read_to_string dir names sources) ≡ file name
  unfolding load_files
  load_files-keeps name [] sources h = h
  load_files-keeps name (n ∷ names) sources h =
      load_files-keeps name names (round n sources) (elim (lookup-round n name sources) [
        | inl (e, r) ↦ r ∙ rw h (or_else_self (file name))
        | inr (e, r) ↦ r ∙ h
      ])

  load_files-reads :
      (name : String) (names : List String) (sources : StrMap String)
      → In name names
      → lookup name sources ≡ none
      → lookup name (load_files read_to_string dir names sources) ≡ file name
  unfolding load_files
  load_files-reads name [] sources m h = absurd m
  load_files-reads name (n ∷ names) sources m h = elim (lookup-round n name sources) [
    | inl (e, r) ↦
        load_files-keeps name names (round n sources) (r ∙ rw h (or_else-none (file name)))
    | inr (e, r) ↦
        load_files-reads name names (round n sources)
          (elim m [ inl e' ↦ absurd (e (sym e')) | inr m' ↦ m' ]) (r ∙ h)
  ]

-- Loading keeps the pipeline as it is configured, and a plugin of the pipeline stands for what its
-- file holds, with nothing if the file cannot be read, however often it is listed.
load-reads :
    (read_to_string : String → Option String) (cfg : PluginsConfig) (name : String)
    → In name cfg.pipeline
    → ((load read_to_string cfg).pipeline ≡ cfg.pipeline)
      × (lookup name (load read_to_string cfg).sources ≡ read_to_string (join cfg.dir name))
unfolding load lookup
load-reads read_to_string cfg name m =
    (refl, load_files-reads read_to_string cfg.dir name cfg.pipeline [] m refl)

-- A plugin outside the pipeline has no source.
load-others :
    (read_to_string : String → Option String) (cfg : PluginsConfig) (name : String)
    → ¬ In name cfg.pipeline
    → lookup name (load read_to_string cfg).sources ≡ none
unfolding load lookup
load-others read_to_string cfg name h =
    load_files-other read_to_string cfg.dir name cfg.pipeline [] h
