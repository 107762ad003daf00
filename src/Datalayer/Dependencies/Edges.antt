-- ===== src/Datalayer/Dependencies/Edges.antt =====
-- pkg/epp/datalayer/data_graph.go: the edges of the dependency graph.
use llm_d_inference_schedule.Prelude.{
  lookup as lookup_in, if◌then◌else◌, ltb, ◌<◌, Option, none, some, Option-cases, Bool-cases, ℕ,
  ◌≡◌, refl, sym, ap, subst, ◌∙◌, ◌⊎◌, inl, inr, ◌==◌, not, ◌&&◌, ◌||◌, Bool, true, false, List, [],
  ◌∷◌, ◌++◌, has, has-append, arith,
}
use llm_d_inference_schedule.Prelude.Int.{ltb_ℤ}
use llm_d_inference_schedule.Datalayer.DataGraph.{Graph, nodes, neighbors}
use llm_d_inference_schedule.Datalayer.DataGraph.Degrees.{Within, AllWithin}
use llm_d_inference_schedule.Datalayer.Dependencies.{
  Plugin, Plugins, DependencyError, Match, unlinked, linked, refused, data_of, Data, lookup,
  type_mismatch, layer_order, plugin_to_layer_execution_order, match_keys, Built, built, unbuilt,
  add_edge, link_consumers, link_producers,
}

abbrev pub names : Plugins → List ℕ
names [] = []
names ((name, p) ∷ ps) = name ∷ names ps

-- The first key that is produced and consumed, by its two types.
abbrev pub shared_types : Data → Data → Option (ℕ × ℕ)
shared_types [] asked = none
shared_types ((key, type) ∷ keys) asked = elim (lookup_in (λ a b. a == b) asked key) [
  | none ↦ shared_types keys asked
  | some other ↦ some (type, other)
]

-- The layers in the order of their execution: none, flow control, request handling, scheduling.
abbrev pub rank : Plugin → ℕ
rank p =
    if p.fairness_policy || p.ordering_policy
    then 1
    else if (p.data_producer || p.admitter) || (p.pre_request || p.response_header_processor)
    then 2
    else if (p.profile_handler || p.filter) || (p.scorer || p.picker)
    then 3
    else 0

-- The consumer asks for something that the producer makes, of the same type and not in an earlier layer.
abbrev pub feeds : Plugin → Plugin → Bool
feeds p c = elim (shared_types (data_of p.produces) (data_of c.consumes)) [
  | none ↦ false
  | some (type, asked) ↦ type == asked && not (ltb (rank c) (rank p))
]

-- The consumer asks for something that the producer makes, of another type, or in an earlier layer.
abbrev pub IsClash : Plugin → Plugin → DependencyError → Type 0
IsClash p c type_mismatch =
    (type : ℕ) × (asked : ℕ) × (shared_types (data_of p.produces) (data_of c.consumes)
      ≡ some (type, asked))
    × ((type == asked) ≡ false)
IsClash p c layer_order =
    (type : ℕ) × (shared_types (data_of p.produces) (data_of c.consumes) ≡ some (type, type))
    × (rank c < rank p)

abbrev pub consumer_depends : ℕ → Plugin → Plugins → ℕ → Bool
consumer_depends name p [] consumer = false
consumer_depends name p ((other, c) ∷ cs) consumer =
    (other == consumer && (not (name == other) && feeds p c)) || consumer_depends name p cs consumer

-- Of the plugins with these two names, other than one another, the first consumes what the second produces.
abbrev pub depends : Plugins → Plugins → ℕ → ℕ → Bool
depends [] cs consumer producer = false
depends ((name, p) ∷ ps) cs consumer producer =
    (name == producer && consumer_depends name p cs consumer) || depends ps cs consumer producer

abbrev pub ConsumerClash : ℕ → Plugin → Plugins → DependencyError → Type 0
ConsumerClash name p [] e = ⊥
ConsumerClash name p ((other, c) ∷ cs) e =
    (((name == other) ≡ false) × IsClash p c e) ⊎ ConsumerClash name p cs e

-- The keys of some producer and some consumer are refused with this error.
abbrev pub Clash : Plugins → Plugins → DependencyError → Type 0
Clash [] cs e = ⊥
Clash ((name, p) ∷ ps) cs e = ConsumerClash name p cs e ⊎ Clash ps cs e

nodes-add_edge : (g : Graph) (u v : ℕ) → has (nodes g) u ≡ true → nodes (add_edge g u v) ≡ nodes g
unfolding add_edge
nodes-add_edge [] u v h = absurd (ground arith)
nodes-add_edge ((x, vs) ∷ g) u v h = elim (Bool-cases (x == u)) [
  | inl here ↦ rw (add_edge, here) refl
  | inr later ↦ rw (add_edge, later) (ap (◌∷◌ x) (nodes-add_edge g u v (ground (arith, later, h))))
]

neighbors-add_edge :
    (g : Graph) (u v w x : ℕ)
    → has (nodes g) u ≡ true
    → has (neighbors (add_edge g u v) w) x ≡ (has (neighbors g w) x || (u == w && v == x))
unfolding add_edge
neighbors-add_edge [] u v w x h = absurd (ground arith)
neighbors-add_edge ((y, vs) ∷ g) u v w x h = elim (Bool-cases (y == u)) [
  | inl here ↦
      let same : y ≡ u = ground arith in
      rw (add_edge, here) (ground (arith, same, here, has-append vs (v ∷ []) x))
  | inr later ↦
      rw (add_edge, later)
        (ground (arith, later, neighbors-add_edge g u v w x (ground (arith, later, h))))
]

Within-append_last :
    (keys vs : List ℕ) (v : ℕ) → has keys v ≡ true → Within keys vs → Within keys (vs ++ v ∷ [])
Within-append_last keys [] v h within = (h, tt)
Within-append_last keys (x ∷ vs) v h (here, within) = (here, Within-append_last keys vs v h within)

add_edge-AllWithin :
    (keys : List ℕ) (g : Graph) (u v : ℕ)
    → has keys v ≡ true
    → AllWithin keys g
    → AllWithin keys (add_edge g u v)
unfolding add_edge
add_edge-AllWithin keys [] u v h within = ((h, tt), tt)
add_edge-AllWithin keys ((x, vs) ∷ g) u v h (here, within) = elim (Bool-cases (x == u)) [
  | inl same ↦ rw (add_edge, same) (Within-append_last keys vs v h here, within)
  | inr other ↦ rw (add_edge, other) (here, add_edge-AllWithin keys g u v h within)
]

-- What linking adds to `g`: the edges `e`, unless it is refused for a clash.
abbrev pub Adds : List ℕ → Graph → (ℕ → ℕ → Bool) → (DependencyError → Type 0) → Built → Type 0
Adds keys g e Clashes (built g') =
    (nodes g' ≡ keys)
    × AllWithin keys g'
    × ((w x : ℕ) → has (neighbors g' w) x ≡ (has (neighbors g w) x || e w x))
Adds keys g e Clashes (unbuilt error) = Clashes error

-- Linking from `g₁`, which has the edges `d` more than `g`.
Adds-after :
    (keys : List ℕ) (g g₁ : Graph) (d e e₁ : ℕ → ℕ → Bool) (C C₁ : DependencyError → Type 0)
    (o : Built)
    → ((w x : ℕ) → has (neighbors g₁ w) x ≡ (has (neighbors g w) x || d w x))
    → ((w x : ℕ) → e w x ≡ (d w x || e₁ w x))
    → ((error : DependencyError) → C₁ error → C error)
    → Adds keys g₁ e₁ C₁ o
    → Adds keys g e C o
Adds-after keys g g₁ d e e₁ C C₁ (built g') more split clash (same, within, adds) =
    (same, within, λ w x. ground (arith, adds w x, more w x, split w x))
Adds-after keys g g₁ d e e₁ C C₁ (unbuilt error) more split clash refusal = clash error refusal

lookup-same : (m : Data) (k : ℕ) → lookup m k ≡ lookup_in (λ a b. a == b) m k
lookup-same [] k = refl
lookup-same ((x, v) ∷ m) k = ground (arith, lookup-same m k)

-- The layers are numbered in the order of the ranks.
layer-rank :
    (p c : Plugin)
    → ltb_ℤ (plugin_to_layer_execution_order c) (plugin_to_layer_execution_order p)
      ≡ ltb (rank c) (rank p)
unfolding plugin_to_layer_execution_order
layer-rank p c = ground arith

-- What the two types of the shared key make of the match.
abbrev matched : Plugin → Plugin → Option (ℕ × ℕ) → Match
matched p c none = unlinked
matched p c (some (type, asked)) =
    if not (type == asked)
    then refused type_mismatch
    else if ltb (rank c) (rank p)
    then refused layer_order
    else linked

match_keys-matched :
    (p c : Plugin) (keys : Data)
    → match_keys p c keys ≡ matched p c (shared_types keys (data_of c.consumes))
unfolding match_keys
match_keys-matched p c [] = refl
match_keys-matched p c ((key, type) ∷ keys) =
    elim (Option-cases (lookup_in (λ a b. a == b) (data_of c.consumes) key)) [
      | inl missing ↦
          rw (match_keys, lookup-same (data_of c.consumes) key, shared_types, missing)
            (match_keys-matched p c keys)
      | inr (asked, there) ↦
          rw (match_keys, lookup-same (data_of c.consumes) key, shared_types, there, layer-rank p c)
            refl
    ]

-- What a pair of plugins comes to.
abbrev Matching : Plugin → Plugin → Match → Type 0
Matching p c m =
    ((m ≡ unlinked) × (feeds p c ≡ false))
    ⊎ (((m ≡ linked) × (feeds p c ≡ true))
        ⊎ ((e : DependencyError) × (m ≡ refused e) × IsClash p c e))

matched-Matching :
    (p c : Plugin) (types : Option (ℕ × ℕ))
    → shared_types (data_of p.produces) (data_of c.consumes) ≡ types
    → Matching p c (matched p c types)
matched-Matching p c none e = inl (refl, rw (feeds, e) refl)
matched-Matching p c (some (type, asked)) e = elim (Bool-cases (type == asked)) [
  | inr differ ↦ rw differ (inr (inr (type_mismatch, refl, (type, asked, e, differ))))
  | inl same ↦ elim (Bool-cases (ltb (rank c) (rank p))) [
    | inl early ↦
        let equal : asked ≡ type = ground (arith, same) in
        rw (same, early)
          (inr (inr (layer_order, refl, (type, rw equal at e, ground (arith, early)))))
    | inr later ↦ rw (same, later) (inr (inl (refl, rw (feeds, e, same, later) refl)))
  ]
]

Match-cases : (p c : Plugin) → Matching p c (match_keys p c (data_of p.produces))
Match-cases p c = rw (match_keys-matched p c (data_of p.produces)) (matched-Matching p c _ refl)

or_false : (b : Bool) → b ≡ (b || false)
or_false true = refl
or_false false = refl

module _ (keys : List ℕ) (name : ℕ) (p : Plugin) (node : has keys name ≡ true) where
  link_consumers-Adds :
      (cs : Plugins) (g : Graph)
      → nodes g ≡ keys
      → AllWithin keys g
      → Within keys (names cs)
      → Adds keys g
          (λ w x. name == x && consumer_depends name p cs w)
          (ConsumerClash name p cs)
          (link_consumers name p cs g)
  unfolding link_consumers
  link_consumers-Adds [] g same within known = (same, within, λ w x. ground arith)
  link_consumers-Adds ((other, c) ∷ cs) g same within (here, known) =
      let e : ℕ → ℕ → Bool = λ w x. name == x && consumer_depends name p ((other, c) ∷ cs) w in
      let e₁ : ℕ → ℕ → Bool = λ w x. name == x && consumer_depends name p cs w in
      let goal : Built → Type 0 = Adds keys g e (ConsumerClash name p ((other, c) ∷ cs)) in
      let skip : link_consumers name p ((other, c) ∷ cs) g ≡ link_consumers name p cs g
          → ((w x : ℕ) → e w x ≡ e₁ w x)
          → goal (link_consumers name p ((other, c) ∷ cs) g) =
        λ step alike. subst goal (sym step) (
          Adds-after keys g g (λ w x. false) e e₁ (ConsumerClash name p ((other, c) ∷ cs))
            (ConsumerClash name p cs) (link_consumers name p cs g)
            (λ w x. or_false (has (neighbors g w) x)) alike (λ error. inr)
            (link_consumers-Adds cs g same within known)) in
      elim (Bool-cases (name == other)) [
        | inl self ↦ skip (rw (link_consumers, self) refl) (λ w x. ground (arith, self))
        | inr apart ↦ elim (Match-cases p c) [
          | inl (none_found, unfed) ↦
              skip (rw (link_consumers, apart, none_found) refl) (λ w x. ground (arith, unfed))
          | inr (inr (error, clash, why)) ↦
              let step : link_consumers name p ((other, c) ∷ cs) g ≡ unbuilt error =
                rw (link_consumers, apart, clash) refl in
              subst goal (sym step) (inl (apart, why))
          | inr (inl (found, fed)) ↦
              let step : link_consumers name p ((other, c) ∷ cs) g
                  ≡ link_consumers name p cs (add_edge g other name) =
                rw (link_consumers, apart, found) refl in
              let present : has (nodes g) other ≡ true = rw same here in
              subst goal (sym step) (
                Adds-after keys g (add_edge g other name) (λ w x. other == w && name == x) e e₁
                  (ConsumerClash name p ((other, c) ∷ cs)) (ConsumerClash name p cs)
                  (link_consumers name p cs (add_edge g other name))
                  (λ w x. neighbors-add_edge g other name w x present)
                  (λ w x. ground (arith, fed, apart)) (λ error. inr)
                  (link_consumers-Adds cs (add_edge g other name)
                    (nodes-add_edge g other name present ∙ same)
                    (add_edge-AllWithin keys g other name node within) known))
        ]
      ]

pub Built-cases :
    (o : Built) → ((g : Graph) × (o ≡ built g)) ⊎ ((e : DependencyError) × (o ≡ unbuilt e))
Built-cases (built g) = inl (g, refl)
Built-cases (unbuilt e) = inr (e, refl)

pub link_producers-Adds :
    (keys : List ℕ) (ps cs : Plugins) (g : Graph)
    → nodes g ≡ keys
    → AllWithin keys g
    → Within keys (names ps)
    → Within keys (names cs)
    → Adds keys g (λ w x. depends ps cs w x) (Clash ps cs) (link_producers ps cs g)
unfolding link_producers
link_producers-Adds keys [] cs g same within producing consuming = (same, within, λ w x. or_false _)
link_producers-Adds keys ((name, p) ∷ ps) cs g same within (node, producing) consuming =
    let step = link_consumers-Adds keys name p node cs g same within consuming in
    elim (Built-cases (link_consumers name p cs g)) [
      | inr (error, e) ↦ rw (link_producers, e) (inl (rw e at step))
      | inl (g₁, e) ↦
          let (same₁, within₁, adds) = rw e at step in
          rw (link_producers, e)
            (Adds-after keys g g₁ (λ w x. name == x && consumer_depends name p cs w)
              (λ w x. depends ((name, p) ∷ ps) cs w x) (λ w x. depends ps cs w x)
              (Clash ((name, p) ∷ ps) cs) (Clash ps cs) (link_producers ps cs g₁) adds (λ w x. refl)
              (λ error. inr) (link_producers-Adds keys ps cs g₁ same₁ within₁ producing consuming))
    ]
