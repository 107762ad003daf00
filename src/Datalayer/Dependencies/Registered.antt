-- ===== src/Datalayer/Dependencies/Registered.antt =====
-- pkg/epp/datalayer/data_graph.go: which plugins ValidateAndOrderDataDependencies takes for producers and for
-- consumers.
use llm_d_inference_schedule.Prelude.{
  Bool-cases, Option-cases, ℕ, ◌≡◌, refl, ap, ◌∙◌, inl, inr, ◌==◌, if◌then◌else◌, Bool, true, false,
  Option, none, some, List, [], ◌∷◌, has, keep, Nodup, arith, lookup as lookup_in,
}
use llm_d_inference_schedule.Datalayer.Dependencies.{
  Plugin, Plugins, Data, implements, put_plugin, plugin_map, producers, consumers,
}
use llm_d_inference_schedule.Datalayer.Dependencies.Edges.{names}

abbrev pub entry : Plugins → ℕ → Option Plugin
entry m v = lookup_in (λ a b. a == b) m v

-- The last plugin of the list with the name.
abbrev pub last_named : List Plugin → ℕ → Option Plugin
last_named [] v = none
last_named (p ∷ ps) v = elim (last_named ps v) [
  | some q ↦ some q
  | none ↦ if p.typed_name == v then some p else none
]

abbrev pub has_data : Option Data → Bool
has_data none = false
has_data (some keys) = true

-- The plugin, if it is one that counts.
abbrev pub counted : (Plugin → Bool) → Option Plugin → Option Plugin
counted counts none = none
counted counts (some p) = if counts p then some p else none

-- Of each name, the map has the last plugin of the list, if it counts.
abbrev pub Holds : (Plugin → Bool) → List Plugin → Plugins → Type 0
Holds counts plugins m = (v : ℕ) → entry m v ≡ counted counts (last_named plugins v)

abbrev or_else : Option Plugin → Option Plugin → Option Plugin
or_else none other = other
or_else (some p) other = some p

entry-put :
    (m : Plugins) (k v : ℕ) (p : Plugin)
    → entry (put_plugin m k p) v ≡ (if k == v then some p else entry m v)
unfolding put_plugin
entry-put [] k v p = refl
entry-put ((x, q) ∷ m) k v p = ground (arith, entry-put m k v p)

entry-plugin_map :
    (ps : List Plugin) (m : Plugins) (v : ℕ)
    → entry (plugin_map ps m) v ≡ or_else (last_named ps v) (entry m v)
unfolding plugin_map
entry-plugin_map [] m v = refl
entry-plugin_map (p ∷ ps) m v =
    let step = entry-plugin_map ps (put_plugin m p.typed_name p) v in
    let put = entry-put m p.typed_name v p in
    elim (Option-cases (last_named ps v)) [
      | inr (q, later) ↦ rw (last_named, later) (step ∙ rw later refl)
      | inl none_later ↦ elim (Bool-cases (p.typed_name == v)) [
        | inl here ↦ rw (last_named, none_later, here) (step ∙ rw none_later (put ∙ rw here refl))
        | inr other ↦
            rw (last_named, none_later, other) (step ∙ rw none_later (put ∙ rw other refl))
      ]
    ]

has-put_plugin :
    (m : Plugins) (k v : ℕ) (p : Plugin)
    → (v == k) ≡ false
    → has (names (put_plugin m k p)) v ≡ has (names m) v
unfolding put_plugin
has-put_plugin [] k v p h = ground (arith, h)
has-put_plugin ((x, q) ∷ m) k v p h = ground (arith, h, has-put_plugin m k v p h)

put_plugin-Nodup :
    (m : Plugins) (k : ℕ) (p : Plugin) → Nodup (names m) → Nodup (names (put_plugin m k p))
unfolding put_plugin
put_plugin-Nodup [] k p h = (refl, tt)
put_plugin-Nodup ((x, q) ∷ m) k p (new, h) = elim (Bool-cases (x == k)) [
  | inl here ↦ rw (put_plugin, here) (new, h)
  | inr other ↦
      rw (put_plugin, other) (has-put_plugin m k x p other ∙ new, put_plugin-Nodup m k p h)
]

plugin_map-Nodup :
    (ps : List Plugin) (m : Plugins) → Nodup (names m) → Nodup (names (plugin_map ps m))
unfolding plugin_map
plugin_map-Nodup [] m h = h
plugin_map-Nodup (p ∷ ps) m h = plugin_map-Nodup ps _ (put_plugin-Nodup m p.typed_name p h)

entry-absent : (m : Plugins) (v : ℕ) → has (names m) v ≡ false → entry m v ≡ none
entry-absent [] v h = refl
entry-absent ((x, q) ∷ m) v h = ground (arith, h, entry-absent m v)

entry-keep :
    (counts : Plugin → Bool) (m : Plugins) (v : ℕ)
    → Nodup (names m)
    → entry (keep (λ e. counts e.1) m) v ≡ counted counts (entry m v)
entry-keep counts [] v h = refl
entry-keep counts ((x, q) ∷ m) v (new, h) =
    let rest = entry-keep counts m v h in
    elim (Bool-cases (x == v)) [
      | inr other ↦ elim (Bool-cases (counts q)) [
        | inl kept ↦ rw (kept, other) rest
        | inr dropped ↦ rw (dropped, other) rest
      ]
      | inl here ↦ elim (Bool-cases (counts q)) [
        | inl kept ↦ rw (kept, here, kept) refl
        | inr dropped ↦
            let same : x ≡ v = ground (arith, here) in
            let gone = entry-absent m v (rw same at new) in
            rw (dropped, here, dropped) (rest ∙ rw gone refl)
      ]
    ]

has_data_lem : (o : Option Data) → implements o ≡ has_data o
has_data_lem none = refl
has_data_lem (some keys) = refl

or_none : (o : Option Plugin) → or_else o none ≡ o
or_none none = refl
or_none (some p) = refl

counted-same :
    (f g : Plugin → Bool) (o : Option Plugin)
    → ((p : Plugin) → f p ≡ g p)
    → counted f o ≡ counted g o
counted-same f g none alike = refl
counted-same f g (some p) alike = rw (alike p) refl

-- The producers, and the consumers.
pub registered :
    (plugins : List Plugin)
    → Holds (λ p. has_data p.produces) plugins (producers (plugin_map plugins []))
      × Holds (λ p. has_data p.consumes) plugins (consumers (plugin_map plugins []))
unfolding producers consumers
registered plugins =
    let m = plugin_map plugins [] in
    let distinct = plugin_map-Nodup plugins [] tt in
    let whole : (v : ℕ) → entry m v ≡ last_named plugins v =
      λ v. entry-plugin_map plugins [] v ∙ or_none (last_named plugins v) in
    (
      λ v.
          entry-keep (λ p. implements p.produces) m v distinct
          ∙ ap (counted (λ p. implements p.produces)) (whole v)
          ∙ counted-same (λ p. implements p.produces) (λ p. has_data p.produces)
              (last_named plugins v) (λ p. has_data_lem p.produces),
      λ v.
          entry-keep (λ p. implements p.consumes) m v distinct
          ∙ ap (counted (λ p. implements p.consumes)) (whole v)
          ∙ counted-same (λ p. implements p.consumes) (λ p. has_data p.consumes)
              (last_named plugins v) (λ p. has_data_lem p.consumes),
    )
