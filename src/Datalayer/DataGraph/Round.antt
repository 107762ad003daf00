-- ===== src/Datalayer/DataGraph/Round.antt =====
-- pkg/epp/datalayer/data_graph.go: the loop over the neighbours of a processed node.
use llm_d_inference_schedule.Prelude.{
  Bool-cases, ℕ, suc, ◌+◌, ◌≡◌, refl, ◌∙◌, inl, inr, ◌==◌, not, ◌&&◌, true, false, List, [], ◌∷◌,
  has, count, has-append, Nodup, Nodup-append_last, arith,
}
use llm_d_inference_schedule.Prelude.Int.{pos}
use llm_d_inference_schedule.Datalayer.DataGraph.{Search, decrement, is_zero, relax_one, relax}
use llm_d_inference_schedule.Datalayer.DataGraph.Degrees.{Within}

-- The state of the loop with the neighbours `ws` left: `r` are the processed nodes, and `after` counts
-- each node's edges from the others.
pub record IsRelaxing (keys r : List ℕ) (after : ℕ → ℕ) (ws : List ℕ) (s : Search) : Type 0 where
  pub degrees : (v : ℕ) → s.degree v ≡ pos (after v + count v ws)
  pub settled : (v : ℕ) → has r v ≡ true → after v + count v ws ≡ 0
  pub queued :
      (v : ℕ) → has s.queue v ≡ (has keys v && (not (has r v) && (after v + count v ws == 0)))
  pub distinct : Nodup s.queue

module _ (keys r : List ℕ) (after : ℕ → ℕ) where
  settled_out :
      (x : ℕ) (ws : List ℕ) (s : Search) → IsRelaxing keys r after (x ∷ ws) s → has r x ≡ false
  settled_out x ws s inv = elim (Bool-cases (has r x)) [
    | inl in_r ↦ absurd (ground (arith, inv.settled x in_r))
    | inr out ↦ out
  ]

  relax_one-IsRelaxing :
      (x : ℕ) (ws : List ℕ) (s : Search)
      → has keys x ≡ true
      → IsRelaxing keys r after (x ∷ ws) s
      → IsRelaxing keys r after ws (relax_one x s)
  unfolding relax_one decrement is_zero
  relax_one-IsRelaxing x ws s node inv =
      let out = settled_out x ws s inv in
      let here : s.degree x ≡ pos (suc (after x + count x ws)) = ground (arith, inv.degrees x) in
      elim (Bool-cases (after x + count x ws == 0)) [
        | inl ready ↦ record {
          degrees = λ v. ground (arith, inv.degrees v, here, ready);
          settled = λ v in_r. ground (arith, inv.settled v in_r);
          queued = λ v.
              ground (arith, inv.queued v, here, ready, node, out, has-append s.queue (x ∷ []) v);
          distinct =
              let absent : has s.queue x ≡ false = ground (arith, inv.queued x) in
              ground (arith, here, ready, Nodup-append_last s.queue x inv.distinct absent);
        }
        | inr waits ↦ record {
          degrees = λ v. ground (arith, inv.degrees v, here, waits);
          settled = λ v in_r. ground (arith, inv.settled v in_r);
          queued = λ v. ground (arith, inv.queued v, here, waits, node, out);
          distinct = ground (arith, here, waits, inv.distinct);
        }
      ]

  relax_one-result : (x : ℕ) (s : Search) → (relax_one x s).result ≡ s.result
  unfolding relax_one
  relax_one-result x s = ground arith

  pub relax-IsRelaxing :
      (ws : List ℕ) (s : Search)
      → Within keys ws
      → IsRelaxing keys r after ws s
      → IsRelaxing keys r after [] (relax ws s) × ((relax ws s).result ≡ s.result)
  unfolding relax
  relax-IsRelaxing [] s within inv = (inv, refl)
  relax-IsRelaxing (x ∷ ws) s (node, within) inv =
      let (done, same) =
        relax-IsRelaxing ws (relax_one x s) within (relax_one-IsRelaxing x ws s node inv) in
      (done, same ∙ relax_one-result x s)
