-- ===== src/Datalayer/Dependencies/Validation.antt =====
-- pkg/epp/datalayer/data_graph.go: what ValidateAndOrderDataDependencies returns.
use llm_d_inference_schedule.Prelude.{
  ℕ, ◌≡◌, ◌==◌, ◌&&◌, ◌||◌, Bool, true, false, List, [], ◌∷◌, has, Nodup,
}
use llm_d_inference_schedule.Datalayer.Dependencies.{
  Plugins, Validated, ordered, incompatible, cyclic, unfinished,
}
use llm_d_inference_schedule.Datalayer.Dependencies.Edges.{names, depends, Clash}

-- The first name stands in the list, with the second after it.
abbrev pub before : List ℕ → ℕ → ℕ → Bool
before [] a b = false
before (x ∷ xs) a b = (x == a && has xs b) || before xs a b

module _ (ps cs : Plugins) where
  -- A plugin of this name produces or consumes data.
  abbrev pub takes_part : ℕ → Bool
  takes_part v = has (names ps) v || has (names cs) v

  -- A non-empty set of such plugins, those outside `r`, where some plugin of the set depends on each.
  abbrev pub IsCyclic : List ℕ → Type 0
  IsCyclic r =
      ((v : ℕ) × (takes_part v ≡ true) × (has r v ≡ false))
      × ((v : ℕ)
          → takes_part v ≡ true
          → has r v ≡ false
          → (w : ℕ) × (takes_part w ≡ true) × (has r w ≡ false) × (depends ps cs w v ≡ true))

  abbrev pub IsValidated : Validated → Type 0
  IsValidated (ordered r) =
      Nodup r
      × ((v : ℕ) → has r v ≡ takes_part v)
      × ((consumer producer : ℕ)
          → depends ps cs consumer producer ≡ true
          → before r producer consumer ≡ true)
  IsValidated (incompatible e) = Clash ps cs e
  IsValidated cyclic = (r : List ℕ) × IsCyclic r
  IsValidated unfinished = ⊥
