-- ===== src/TablxCache/Without.antt =====
-- The cache as a list of entries, and a list without the entry of one key.
use fast_gdb.Base.{
  suc, ◌+◌, ◌*◌, ◌^◌, ◌≤◌, ◌≡◌, inl, inr, refl, ap, ◌∙◌, subst, false, List, [], ◌∷◌, none, some,
  arith, length, Bool-cases, All,
}
use fast_gdb.TablxCache.{
  TablxCacheKey, same_key, TablxCacheValue, value_size, max_entries, remove_key, TablxCache,
}
use fast_gdb.TablxCache.Entries.{
  Entry, keys, total, lookup, without, IsDistinct, same_key-≡, same_key-sym, same_key-sym_false,
  lookup-same,
}

abbrev pub IsSmall : Entry → Type 0
IsSmall (k, v) = length v.offsets ≤ 2 ^ 25

-- The cache holds these entries, the last used first.
pub record Models (c : TablxCache) (es : List Entry) : Type 0 where
  pub order : c.lru_list_ ≡ keys es
  pub entries : (k : TablxCacheKey) → c.find k ≡ lookup es k
  pub counted : c.count ≡ length es
  pub bytes : c.cached_bytes_ ≡ total es
  pub distinct : IsDistinct es
  pub few : length es ≤ max_entries
  pub small : All IsSmall es

some_none : {A : Type 0} {x : A} {B : Type 0} → none ≡ some x → B
some_none h = cc

pub total-bound : (es : List Entry) → All IsSmall es → total es ≤ length es * 2 ^ 28
total-bound [] h = omega arith
total-bound ((k, v) ∷ es) h = omega (arith, h.0, total-bound es h.1)

module _ (key : TablxCacheKey) where
  pub keys-without : (es : List Entry) → keys (without key es) ≡ remove_key key (keys es)
  unfolding without remove_key
  keys-without [] = refl
  keys-without ((k, v) ∷ es) = elim (Bool-cases (same_key key k)) [
    | inl e ↦ rw e refl
    | inr e ↦ rw e (ap (λ t. k ∷ t) (keys-without es))
  ]

  pub lookup-without_other :
      (es : List Entry) (k' : TablxCacheKey)
      → same_key key k' ≡ false
      → lookup (without key es) k' ≡ lookup es k'
  unfolding without
  lookup-without_other [] k' n = refl
  lookup-without_other ((k, v) ∷ es) k' n = elim (Bool-cases (same_key key k)) [
    | inl e ↦
        let n' : same_key k k' ≡ false =
          subst (λ t. same_key t k' ≡ false) (same_key-≡ key k e) n in
        rw (e, n') refl
    | inr e ↦ rw e (elim (Bool-cases (same_key k k')) [
      | inl f ↦ rw f refl
      | inr f ↦ rw f (lookup-without_other es k' n)
    ])
  ]

  pub lookup-without_self : (es : List Entry) → IsDistinct es → lookup (without key es) key ≡ none
  unfolding without
  lookup-without_self [] d = refl
  lookup-without_self ((k, v) ∷ es) d = elim (Bool-cases (same_key key k)) [
    | inl e ↦ rw e (lookup-same es key k e ∙ d.0)
    | inr e ↦ rw (e, same_key-sym_false key k e) (lookup-without_self es d.1)
  ]

  pub IsDistinct-without : (es : List Entry) → IsDistinct es → IsDistinct (without key es)
  unfolding without
  IsDistinct-without [] d = tt
  IsDistinct-without ((k, v) ∷ es) d = elim (Bool-cases (same_key key k)) [
    | inl e ↦ rw e d.1
    | inr e ↦ rw e (lookup-without_other es k e ∙ d.0, IsDistinct-without es d.1)
  ]

  pub All-without : (es : List Entry) → All IsSmall es → All IsSmall (without key es)
  unfolding without
  All-without [] h = tt
  All-without ((k, v) ∷ es) h = elim (Bool-cases (same_key key k)) [
    | inl e ↦ rw e h.1
    | inr e ↦ rw e (h.0, All-without es h.1)
  ]

  pub without-counts :
      (es : List Entry) (v : TablxCacheValue)
      → lookup es key ≡ some v
      → (length es ≡ suc (length (without key es)))
        × (total es ≡ value_size v + total (without key es))
  unfolding without
  without-counts [] v h = some_none h
  without-counts ((k, v') ∷ es) v h = elim (Bool-cases (same_key key k)) [
    | inl e ↦
        let h' : some v' ≡ some v = rw (same_key-sym key k e) at h in
        let same : v' ≡ v = cc in rw e (omega arith, omega (arith, ap value_size same))
    | inr e ↦
        let h' : lookup es key ≡ some v = rw (same_key-sym_false key k e) at h in
        let (n, t) = without-counts es v h' in rw e (omega (arith, n), omega (arith, t))
  ]

  pub All-lookup :
      (es : List Entry) (v : TablxCacheValue)
      → All IsSmall es
      → lookup es key ≡ some v
      → length v.offsets ≤ 2 ^ 25
  All-lookup [] v h e = some_none e
  All-lookup ((k, v') ∷ es) v h e = elim (Bool-cases (same_key k key)) [
    | inl f ↦
        let e' : some v' ≡ some v = rw f at e in
        let same : v' ≡ v = cc in subst (λ t. length t.offsets ≤ 2 ^ 25) same h.0
    | inr f ↦ All-lookup es v h.1 (rw f at e)
  ]
