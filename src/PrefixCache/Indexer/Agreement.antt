-- ===== src/PrefixCache/Indexer/Agreement.antt =====
-- pkg/epp/framework/plugins/requestcontrol/dataproducer/approximateprefix/indexer.go: the map from hashes to
-- servers against the caches of the servers.
use llm_d_inference_schedule.Prelude.{
  has, Bool-cases, Option-cases, ℕ, ◌≡◌, ◌==◌, ◌||◌, ◌&&◌, not, refl, sym, ap, ◌∙◌, inl, inr,
  if◌then◌else◌, Bool, true, false, Option, none, some, List, [], ◌∷◌, update, ==_iff, arith,
}
use llm_d_inference_schedule.PrefixCache.Indexer.{
  Lru, Server, Indexer, insert, delete, get, or_empty, non_empty, evict, link_all, fill, lru_for,
  add, remove_keys, remove_pod,
}

abbrev pub is_it : Option ℕ → ℕ → Bool
is_it none k = false
is_it (some h) k = h == k

-- What the documentation of the cache says: a new cache is empty; Add puts the key in, and throws out
-- at most one other key, on which it calls back; Remove takes the key out, and calls back if it was in.
pub record LruLaw {L : Type 0} (lru : Lru L) : Type 0 where
  pub create_empty : (n k : ℕ) → lru.contains (lru.create n) k ≡ false
  pub add_contains :
      (l : L) (h k : ℕ)
      → lru.contains (lru.add l h).0 k
        ≡ (if k == h then true else if is_it (lru.add l h).1 k then false else lru.contains l k)
  pub add_spares : (l : L) (h : ℕ) → is_it (lru.add l h).1 h ≡ false
  pub remove_contains :
      (l : L) (h k : ℕ)
      → lru.contains (lru.remove l h).0 k ≡ (if k == h then false else lru.contains l k)
  pub remove_calls : (l : L) (h k : ℕ) → is_it (lru.remove l h).1 k ≡ (k == h && lru.contains l h)
  pub keys_contains : (l : L) (k : ℕ) → has (lru.keys l) k ≡ lru.contains l k

has-delete : (s : List ℕ) (p q : ℕ) → has (delete s p) q ≡ (has s q && not (q == p))
unfolding delete
has-delete [] p q = refl
has-delete (x ∷ s) p q = ground (arith, has-delete s p q)

has-insert : (s : List ℕ) (p q : ℕ) → has (insert s p) q ≡ (has s q || q == p)
has-insert s p q = ground arith

has-non_empty : (s : List ℕ) (q : ℕ) → has (or_empty (non_empty s)) q ≡ has s q
unfolding non_empty
has-non_empty [] q = refl
has-non_empty (x ∷ s) q = refl

module _ {L : Type 0} where
  get-evict :
      (pod : ℕ) (ix : Indexer L) (evicted : Option ℕ) (h q : ℕ)
      → has (get (evict pod ix evicted) h) q
        ≡ (has (get ix h) q && not (is_it evicted h && q == pod))
  unfolding evict get non_empty
  get-evict pod ix none h q = ground arith
  get-evict pod ix (some k) h q = elim (Option-cases (ix.hash_to_pods k)) [
    | inl absent ↦ rw (evict, absent) (ground (arith, absent))
    | inr (s, present) ↦
        rw (evict, present)
          (ground (arith, present, has-non_empty (delete s pod) q, has-delete s pod q))
  ]

  evict-pod_to_lru :
      (pod : ℕ) (ix : Indexer L) (evicted : Option ℕ)
      → (evict pod ix evicted).pod_to_lru ≡ ix.pod_to_lru
  unfolding evict
  evict-pod_to_lru pod ix none = refl
  evict-pod_to_lru pod ix (some k) = ground arith

  pub link_all-has :
      (pod : ℕ) (hs : List ℕ) (ix : Indexer L) (h q : ℕ)
      → has (get (link_all pod hs ix) h) q ≡ (has (get ix h) q || (has hs h && q == pod))
  unfolding link_all get
  link_all-has pod [] ix h q = ground arith
  link_all-has pod (x ∷ hs) ix h q =
      link_all-has pod hs _ h q ∙ ground (arith, has-insert (get ix x) pod q)

  link_all-pod_to_lru :
      (pod : ℕ) (hs : List ℕ) (ix : Indexer L) → (link_all pod hs ix).pod_to_lru ≡ ix.pod_to_lru
  unfolding link_all
  link_all-pod_to_lru pod [] ix = refl
  link_all-pod_to_lru pod (x ∷ hs) ix = link_all-pod_to_lru pod hs _

module _ {L : Type 0} (lru : Lru L) where
  abbrev pub cached_in : Option L → ℕ → Bool
  cached_in none h = false
  cached_in (some l) h = lru.contains l h

  -- The cache that the indexer keeps for the server `q` has the hash `h`.
  abbrev pub cached : Indexer L → ℕ → ℕ → Bool
  cached ix q h = cached_in (ix.pod_to_lru q) h

  -- The map names a server for a hash exactly if that server's cache has it.
  abbrev pub Agrees : Indexer L → Type 0
  Agrees ix = (h q : ℕ) → has (get ix h) q ≡ cached ix q h

  pub fill-has_others :
      (pod : ℕ) (hs : List ℕ) (l : L) (ix : Indexer L) (h q : ℕ)
      → (q == pod) ≡ false
      → has (get (fill lru pod hs l ix).1 h) q ≡ has (get ix h) q
  unfolding fill
  fill-has_others pod [] l ix h q other = refl
  fill-has_others pod (x ∷ hs) l ix h q other =
      fill-has_others pod hs _ _ h q other
      ∙ ground (arith, get-evict pod ix (lru.add l x).1 h q, other)

module _ {L : Type 0} (lru : Lru L) (law : LruLaw lru) where
  -- On a hash that is not added, the map and the cache go on agreeing.
  fill-agrees :
      (pod : ℕ) (hs : List ℕ) (l : L) (ix : Indexer L) (h : ℕ)
      → has hs h ≡ false
      → has (get ix h) pod ≡ lru.contains l h
      → has (get (fill lru pod hs l ix).1 h) pod ≡ lru.contains (fill lru pod hs l ix).0 h
  unfolding fill
  fill-agrees pod [] l ix h apart agree = agree
  fill-agrees pod (x ∷ hs) l ix h apart agree =
      fill-agrees pod hs _ _ h (ground (arith, apart)) (
        ground
          (arith, get-evict pod ix (lru.add l x).1 h pod, law.add_contains l x h, agree, apart))

  fill-pod_to_lru :
      (pod : ℕ) (hs : List ℕ) (l : L) (ix : Indexer L)
      → (fill lru pod hs l ix).1.pod_to_lru ≡ ix.pod_to_lru
  unfolding fill
  fill-pod_to_lru pod [] l ix = refl
  fill-pod_to_lru pod (x ∷ hs) l ix = fill-pod_to_lru pod hs _ _ ∙ evict-pod_to_lru pod ix _

  lru_for-contains :
      (ix : Indexer L) (pod : Server) (h : ℕ)
      → lru.contains (lru_for lru ix pod) h ≡ cached lru ix pod.server_id h
  unfolding lru_for
  lru_for-contains ix pod h = elim (Option-cases (ix.pod_to_lru pod.server_id)) [
    | inl absent ↦ rw (lru_for, absent) (law.create_empty _ h)
    | inr (l, present) ↦ rw (lru_for, present) refl
  ]

  -- After Add to an index that agrees with the caches, the map names a server for a hash exactly if the
  -- server's cache has it, or the server and the hash were those of the call. So a hash of the call that
  -- its later hashes have driven out of the cache is named all the same.
  pub add_links :
      (ix : Indexer L) (hashes : List ℕ) (pod : Server) (h q : ℕ)
      → Agrees lru ix
      → let after = add lru ix hashes pod in
        has (get after h) q ≡ (cached lru after q h || (has hashes h && q == pod.server_id))
  unfolding add get
  add_links ix hashes pod h q agrees =
      let id = pod.server_id in
      let l = lru_for lru ix pod in
      let filled = fill lru id hashes l ix in
      let ready = record filled.1 { pod_to_lru = update ix.pod_to_lru id (some filled.0) } in
      let linked = link_all-has id hashes ready h q in
      let caches = link_all-pod_to_lru id hashes ready in
      elim (Bool-cases (q == id)) [
        | inr other ↦
            ground (
              arith,
              linked,
              caches,
              other,
              fill-has_others lru id hashes l ix h q other,
              agrees h q,
            )
        | inl same ↦ elim (Bool-cases (has hashes h)) [
          | inl called ↦ ground (arith, linked, same, called)
          | inr apart ↦
              let e : q ≡ id = ground (arith, same) in
              let agree =
                fill-agrees id hashes l ix h apart
                  (agrees h id ∙ sym (lru_for-contains ix pod h)) in
              ground (arith, linked, caches, e, same, apart, agree)
        ]
      ]

  remove_keys-has_others :
      (pod : ℕ) (ks : List ℕ) (l : L) (ix : Indexer L) (h q : ℕ)
      → (q == pod) ≡ false
      → has (get (remove_keys lru pod ks l ix) h) q ≡ has (get ix h) q
  unfolding remove_keys
  remove_keys-has_others pod [] l ix h q other = refl
  remove_keys-has_others pod (x ∷ ks) l ix h q other =
      remove_keys-has_others pod ks _ _ h q other
      ∙ ground (arith, get-evict pod ix (lru.remove l x).1 h q, other)

  remove_keys-has :
      (pod : ℕ) (ks : List ℕ) (l : L) (ix : Indexer L) (h : ℕ)
      → has (get ix h) pod ≡ lru.contains l h
      → has (get (remove_keys lru pod ks l ix) h) pod ≡ (lru.contains l h && not (has ks h))
  unfolding remove_keys
  remove_keys-has pod [] l ix h agree = ground (arith, agree)
  remove_keys-has pod (x ∷ ks) l ix h agree =
      let left = law.remove_contains l x h in
      let called = law.remove_calls l x h in
      let same = ==_iff h x in
      let here : (h == x) ≡ true → lru.contains l x ≡ lru.contains l h =
        λ e. ap (lru.contains l) (sym (same.0 e)) in
      remove_keys-has pod ks _ _ h
        (ground (arith, get-evict pod ix (lru.remove l x).1 h pod, left, called, agree, here))
      ∙ ground (arith, left)

  remove_keys-pod_to_lru :
      (pod : ℕ) (ks : List ℕ) (l : L) (ix : Indexer L)
      → (remove_keys lru pod ks l ix).pod_to_lru ≡ ix.pod_to_lru
  unfolding remove_keys
  remove_keys-pod_to_lru pod [] l ix = refl
  remove_keys-pod_to_lru pod (x ∷ ks) l ix =
      remove_keys-pod_to_lru pod ks _ _ ∙ evict-pod_to_lru pod ix _

  -- RemovePod keeps the index in agreement with the caches, and no hash names the server any more.
  pub remove_pod-Agrees :
      (ix : Indexer L) (pod : ℕ)
      → Agrees lru ix
      → Agrees lru (remove_pod lru ix pod)
        × ((h : ℕ) → has (get (remove_pod lru ix pod) h) pod ≡ false)
  unfolding remove_pod get
  remove_pod-Agrees ix pod agrees = elim (Option-cases (ix.pod_to_lru pod)) [
    | inl absent ↦ rw (remove_pod, absent) (agrees, λ h. ground (arith, agrees h pod, absent))
    | inr (l, present) ↦
        let agree : (h : ℕ) → has (get ix h) pod ≡ lru.contains l h =
          λ h. ground (arith, agrees h pod, present) in
        let none_left : (h : ℕ) → has (get (remove_keys lru pod (lru.keys l) l ix) h) pod ≡ false =
          λ h.
            ground
              (arith, remove_keys-has pod (lru.keys l) l ix h (agree h), law.keys_contains l h) in
        let caches = remove_keys-pod_to_lru pod (lru.keys l) l ix in
        rw (remove_pod, present)
          (
            λ h q. elim (Bool-cases (q == pod)) [
              | inl same ↦
                  let e : q ≡ pod = ground (arith, same) in ground (arith, same, e, none_left h)
              | inr other ↦ ground (
                arith,
                other,
                caches,
                agrees h q,
                remove_keys-has_others pod (lru.keys l) l ix h q other,
              )
            ],
            none_left,
          )
  ]
