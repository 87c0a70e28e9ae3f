-- ===== src/Ingester/Config/Laws.antt =====
-- What a validated configuration of the service has.
use blockstorageingestor.Prelude.{
  ℕ, zero, suc, ◌<◌, ◌≡◌, refl, ap, ◌∙◌, ◌↔◌, ◌⊎◌, inl, inr, true, false, not, ◌&&◌, some, List, [],
  ◌∷◌, ◌++◌, arith, if◌then◌else◌, ◌==◌, nat_eq, Bool-cases, get_elem?, All, Str, codes,
  str_beq_iff, str_eq,
}
use blockstorageingestor.Errors.{
  Error, Result, Result-cases, ok, err, sentinel, errorf, wrapped, invalid_http_prefix, wrap, ◌>>◌,
}
use blockstorageingestor.Go.Strings.{has_prefix}
use blockstorageingestor.Ingester.Parts.{Cortex}
use blockstorageingestor.Ingester.Config.{
  Config, Field, check_fields, fields, defaults, validate_yaml_empty_nodes, validate,
}

-- A field that an empty YAML node may have reset: a struct that is zero, and whose default is not.
abbrev pub IsEmptied : List Field → List Field → ℕ → Field → Type 0
IsEmptied fs ds i f =
    (d : Field) × (get_elem? fs i ≡ some f)
    × (get_elem? ds i ≡ some d)
    × (f.is_struct ≡ true)
    × (f.is_zero ≡ true)
    × (d.is_zero ≡ false)

abbrev pub empty_node : Str → Error
empty_node name = errorf (
    codes "the " ++ name ++ codes " configuration in YAML has been specified as an empty YAML node")

-- No field has been emptied, or the first that has been is in the error.
data Scan (fs : List Field) (ds : List Field) (r : Result (Unit {0})) : Type 0 where
  clean : ((i : ℕ) (f : Field) → IsEmptied fs ds i f → ⊥) → r ≡ ok tt → Scan fs ds r
  emptied :
      (i : ℕ) (f : Field)
      → IsEmptied fs ds i f
      → ((j : ℕ) (g : Field) → j < i → IsEmptied fs ds j g → ⊥)
      → r ≡ err (empty_node f.name)
      → Scan fs ds r

tail-IsEmptied :
    (f d : Field) (fs ds : List Field)
    → (f.is_struct && f.is_zero && not d.is_zero) ≡ false
    → (i : ℕ) (g : Field) → IsEmptied (f ∷ fs) (d ∷ ds) i g
    → (j : ℕ) × (i ≡ suc j) × IsEmptied fs ds j g
tail-IsEmptied f d fs ds h zero g (x, a, b, p, q, r) = let no : ⊥ = ground arith in elim no [ ]
tail-IsEmptied f d fs ds h (suc i) g e = (i, refl, e)

check_fields-Scan : (fs ds : List Field) → Scan fs ds (check_fields fs ds)
unfolding check_fields
check_fields-Scan [] ds = clean (λ i f (d, a, b, h, k, l). ground arith) refl
check_fields-Scan (f ∷ fs) [] = clean (λ i g (d, a, b, h, k, l). ground arith) refl
check_fields-Scan (f ∷ fs) (d ∷ ds) =
    elim (Bool-cases (f.is_struct && f.is_zero && not d.is_zero)) [
      | inl h ↦
          emptied 0 f (d, refl, refl, ground arith, ground arith, ground arith)
            (λ j g l e. omega arith) (rw h refl)
      | inr h ↦ elim (check_fields-Scan fs ds) [
        | clean c e ↦
            clean (λ j g l. (let (k, e, m) = tail-IsEmptied f d fs ds h j g l in c k g m))
              (rw (h, check_fields) e)
        | emptied i g t c e ↦
            emptied (suc i) g t
              (λ j n l m.
                (let (k, e, q) = tail-IsEmptied f d fs ds h j n m in c k n (omega arith) q))
              (rw (h, check_fields) e)
      ]
    ]

abbrev pub Check : Type 0
Check = Result (Unit {0}) × Str

abbrev pub Passed : Check → Type 0
Passed k = k.0 ≡ ok tt

-- a chain of checks, each with the message that its error is wrapped in
chained : Result (Unit {0}) → List Check → Result (Unit {0})
chained m [] = m
chained m (k ∷ ks) = chained (m >> wrapped k.0 k.1) ks

chained-err : (e : Error) (ks : List Check) → chained (err e) ks ≡ err e
unfolding chained
chained-err e [] = refl
chained-err e (k ∷ ks) = chained-err e ks

chained-Passed : (m : Result (Unit {0})) (ks : List Check) → All Passed ks → chained m ks ≡ m
unfolding chained
chained-Passed m [] p = refl
chained-Passed (ok u) ((ok v, msg) ∷ ks) p = chained-Passed (ok v) ks p.1
chained-Passed (err e) (k ∷ ks) p = chained-Passed (err e) ks p.1
chained-Passed (ok u) ((err e, msg) ∷ ks) p = let no : ⊥ = cc (p.0) in elim no [ ]

-- all checks pass, or there is a first that does not
all_or_first :
    (ks : List Check)
    → All Passed ks
      ⊎ ((ps : List Check) × (e : Error) × (msg : Str) × (qs : List Check) × All Passed ps
          × (ks ≡ ps ++ (err e, msg) ∷ qs))
all_or_first [] = inl tt
all_or_first ((err e, msg) ∷ ks) = inr ([], e, msg, ks, tt, refl)
all_or_first ((ok u, m) ∷ ks) = elim (all_or_first ks) [
  | inl p ↦ inl (refl, p)
  | inr (ps, e, msg, qs, p, k) ↦
      inr ((ok u, m) ∷ ps, e, msg, qs, (refl, p), ap (λ t. (ok u, m) ∷ t) k)
]

chained-fails :
    (u : Unit {0}) (ps : List Check) (e : Error) (msg : Str) (qs : List Check)
    → All Passed ps
    → chained (ok u) (ps ++ (err e, msg) ∷ qs) ≡ err (wrap e msg)
unfolding chained
chained-fails u [] e msg qs p = chained-err (wrap e msg) qs
chained-fails u ((ok v, m) ∷ ps) e msg qs p = chained-fails v ps e msg qs p.1
chained-fails u ((err f, m) ∷ ps) e msg qs p = let no : ⊥ = cc (p.0) in elim no [ ]

module _ (C : Cortex) where
  -- the checks of the parts, with their messages
  abbrev pub checks : Config C → List Check
  checks c =
      (C.validate_storage c.storage, codes "invalid storage config")
      ∷ (C.validate_ruler_storage c.ruler_storage, codes "invalid rulestore config")
      ∷ (C.validate_ruler c.ruler c.limits_config, codes "invalid ruler config")
      ∷ (C.validate_blocks_storage c.blocks_storage, codes "invalid TSDB config")
      ∷ (
        C.validate_limits c.limits_config (C.shard_by_all_labels c.distributor),
        codes "invalid limits config",
      )
      ∷ (C.validate_distributor c.distributor c.limits_config, codes "invalid distributor config")
      ∷ (C.validate_querier c.querier, codes "invalid querier config")
      ∷ (C.validate_ingester_client c.ingester_client, codes "invalid ingester_client config")
      ∷ (C.validate_worker c.worker, codes "invalid frontend_worker config")
      ∷ (C.validate_query_range c.query_range c.querier, codes "invalid query_range config")
      ∷ (
        C.validate_store_gateway c.store_gateway c.limits_config,
        codes "invalid store-gateway config",
      )
      ∷ (C.validate_compactor c.compactor c.limits_config, codes "invalid compactor config")
      ∷ (
        C.validate_alertmanager_storage c.alertmanager_storage,
        codes "invalid alertmanager storage config",
      )
      ∷ (
        C.validate_alertmanager c.alertmanager c.alertmanager_storage,
        codes "invalid alertmanager config",
      )
      ∷ (C.validate_tracing c.tracing, codes "invalid tracing config")
      ∷ []

  -- What is checked before the parts: no part has been emptied, and the prefix is empty or begins
  -- with a slash.
  abbrev pub IsSound : Config C → Type 0
  IsSound c =
      ((i : ℕ) (f : Field) → IsEmptied (fields C c) (fields C (defaults C)) i f → ⊥)
      × ((c.http_prefix ≡ []) ⊎ (has_prefix c.http_prefix (codes "/") ≡ true))

  -- `validateYAMLEmptyNodes` passes a configuration exactly if no struct among its fields is zero
  -- where the default is not; else its error names the first such field.
  pub validate_yaml_empty_nodes_lem :
      (c : Config C)
      → let r = validate_yaml_empty_nodes C c in
        let Emptied = IsEmptied (fields C c) (fields C (defaults C)) in
        (((i : ℕ) (f : Field) → Emptied i f → ⊥) × (r ≡ ok tt))
        ⊎ ((i : ℕ) × (f : Field) × Emptied i f
            × ((j : ℕ) (g : Field) → j < i → Emptied j g → ⊥)
            × (r ≡ err (empty_node f.name)))
  unfolding validate_yaml_empty_nodes fields
  validate_yaml_empty_nodes_lem c = elim (check_fields-Scan (fields C c) (fields C (defaults C))) [
    | clean h e ↦ inl (h, e)
    | emptied i f t h e ↦ inr (i, f, t, h, e)
  ]

  abbrev slash_check : Str → Result (Unit {0})
  slash_check p =
      if not (p == []) && not (has_prefix p (codes "/"))
      then err (sentinel invalid_http_prefix)
      else ok tt

  before : Config C → Result (Unit {0})
  before c = validate_yaml_empty_nodes C c >> slash_check c.http_prefix

  validate-chained : (c : Config C) → validate C c ≡ chained (before c) (checks c)
  unfolding validate chained before
  validate-chained c = refl

  slash_ok : (p : Str) → (slash_check p ≡ ok tt) ↔ ((p ≡ []) ⊎ (has_prefix p (codes "/") ≡ true))
  slash_ok p = ground (arith, str_beq_iff p [])

  before-IsSound : (c : Config C) → (before c ≡ ok tt) ↔ IsSound c
  unfolding before
  before-IsSound c = elim (validate_yaml_empty_nodes_lem c) [
    | inl (h, e) ↦
        rw e (λ k. (h, (slash_ok c.http_prefix).0 k), λ q. (slash_ok c.http_prefix).1 q.1)
    | inr (i, f, t, h, e) ↦
        rw e (λ k. (let no : ⊥ = cc in elim no [ ]), λ q. (let no : ⊥ = q.0 i f t in elim no [ ]))
  ]

  -- `Validate` passes a sound configuration whose parts all pass their checks; for a sound one it
  -- returns the error of the first part that does not, with its message; and it refuses one that
  -- is not sound.
  pub validate_lem :
      (c : Config C)
      → (IsSound c × All Passed (checks c) × (validate C c ≡ ok tt))
        ⊎ ((ps : List Check) × (e : Error) × (msg : Str) × (qs : List Check) × IsSound c
            × All Passed ps
            × (checks c ≡ ps ++ (err e, msg) ∷ qs)
            × (validate C c ≡ err (wrap e msg)))
        ⊎ ((e : Error) × (IsSound c → ⊥) × (validate C c ≡ err e))
  validate_lem c = elim (Result-cases (before c)) [
    | inl (u, h) ↦
        let sound = (before-IsSound c).0 h in
        elim (all_or_first (checks c)) [
          | inl p ↦ inl (sound, p, validate-chained c ∙ rw h (chained-Passed (ok u) (checks c) p))
          | inr (ps, e, msg, qs, p, k) ↦ inr (
              inl (
                ps,
                e,
                msg,
                qs,
                sound,
                p,
                k,
                validate-chained c ∙ rw (h, k) (chained-fails u ps e msg qs p),
              ))
        ]
    | inr (e, h) ↦ inr (
        inr (
          e,
          λ s. (let no : ⊥ = cc ((before-IsSound c).1 s) in elim no [ ]),
          validate-chained c ∙ rw h (chained-err e (checks c)),
        ))
  ]
