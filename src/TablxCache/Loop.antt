-- ===== src/TablxCache/Loop.antt =====
-- The loop of `put` that makes room.
use fast_gdb.Base.{
  ℕ, zero, suc, ◌+◌, ◌-◌, ◌*◌, ◌%◌, ◌^◌, ◌≤◌, ◌<◌, ◌≡◌, ◌⊎◌, inl, inr, refl, ap, sym, ◌∙◌, subst,
  true, false, List, [], ◌∷◌, ◌++◌, none, some, arith, length, length-append, ltb, leb, Bool-cases,
  All,
}
use fast_gdb.TablxCache.{
  TablxCacheKey, same_key, TablxCacheValue, value_size, max_entries, max_bytes, TablxCache, assign,
  pop_back, evict_oldest, is_over, make_room,
}
use fast_gdb.TablxCache.Entries.{
  Entry, keys, total, lookup, IsDistinct, same_key_refl, same_key-≡, same_key-sym_false,
}
use fast_gdb.TablxCache.Without.{IsSmall, Models, total-bound}
use native.Mathlib.Decide.{dec_lt, dec_le}
use mathlib.Core.List.{append_assoc, append-nil}

-- Room for a value of `value_bytes` beside the entries.
pub record Fits (es : List Entry) (value_bytes : ℕ) : Type 0 where
  pub few : length es < max_entries
  pub light : total es + value_bytes ≤ max_bytes

-- The front of the entries that is kept, with what is dropped behind it: it fits, and one more would not.
pub record Trims (es kept : List Entry) (value_bytes : ℕ) : Type 0 where
  pub dropped : List Entry
  pub split : es ≡ kept ++ dropped
  pub fits : Fits kept value_bytes
  pub longest :
      (dropped ≡ [])
      ⊎ ((e : Entry) × (rest : List Entry) × (dropped ≡ e ∷ rest)
          × (¬ Fits (kept ++ (e ∷ [])) value_bytes))

split_last :
    (e : Entry) (es : List Entry)
    → (init : List Entry) × (last : Entry) × (e ∷ es ≡ init ++ (last ∷ []))
split_last e [] = ([], e, refl)
split_last e (e' ∷ es) =
    let (init, last, p) = split_last e' es in (e ∷ init, last, ap (λ t. e ∷ t) p)

module _ (k : TablxCacheKey) (v : TablxCacheValue) where
  pop_back-keys : (es : List Entry) → pop_back (keys (es ++ ((k, v) ∷ []))) ≡ some (k, keys es)
  unfolding pop_back
  pop_back-keys [] = refl
  pop_back-keys ((k', v') ∷ es) = rw (pop_back-keys es) refl

  total-append : (es : List Entry) → total (es ++ ((k, v) ∷ [])) ≡ total es + value_size v
  total-append [] = omega arith
  total-append ((k', v') ∷ es) = omega (arith, total-append es)

  All-front :
      (es : List Entry)
      → All IsSmall (es ++ ((k, v) ∷ []))
      → All IsSmall es × (length v.offsets ≤ 2 ^ 25)
  All-front [] h = (tt, h.0)
  All-front ((k', v') ∷ es) h = let (a, b) = All-front es h.1 in ((h.0, a), b)

  lookup-front :
      (es : List Entry) (q : TablxCacheKey)
      → same_key k q ≡ false
      → lookup (es ++ ((k, v) ∷ [])) q ≡ lookup es q
  lookup-front [] q n = rw n refl
  lookup-front ((k', v') ∷ es) q n = elim (Bool-cases (same_key k' q)) [
    | inl e ↦ rw e refl
    | inr e ↦ rw e (lookup-front es q n)
  ]

  lookup-none :
      (es : List Entry) (q : TablxCacheKey)
      → lookup (es ++ ((k, v) ∷ [])) q ≡ none
      → (lookup es q ≡ none) × (same_key k q ≡ false)
  lookup-none [] q h = elim (Bool-cases (same_key k q)) [
    | inl e ↦ let h' : some v ≡ none = rw e at h in cc
    | inr e ↦ (refl, e)
  ]
  lookup-none ((k', v') ∷ es) q h = elim (Bool-cases (same_key k' q)) [
    | inl e ↦ let h' : some v' ≡ none = rw e at h in cc
    | inr e ↦ rw e (lookup-none es q (rw e at h))
  ]

  IsDistinct-front :
      (es : List Entry) → IsDistinct (es ++ ((k, v) ∷ [])) → IsDistinct es × (lookup es k ≡ none)
  IsDistinct-front [] d = (tt, refl)
  IsDistinct-front ((k', v') ∷ es) d =
      let (a, b) = IsDistinct-front es d.1 in
      let (c, n) = lookup-none es k' d.0 in
      let n' : same_key k' k ≡ false = same_key-sym_false k k' n in ((c, a), rw n' b)

  lookup-last : (es : List Entry) → lookup es k ≡ none → lookup (es ++ ((k, v) ∷ [])) k ≡ some v
  lookup-last [] n = rw (same_key_refl k) refl
  lookup-last ((k', v') ∷ es) n = elim (Bool-cases (same_key k' k)) [
    | inl e ↦ let n' : some v' ≡ none = rw e at n in cc
    | inr e ↦ rw e (lookup-last es (rw e at n))
  ]

  evict_oldest-Models :
      (c : TablxCache) (es : List Entry)
      → Models c (es ++ ((k, v) ∷ []))
      → (c' : TablxCache) × (evict_oldest c ≡ some c') × Models c' es
  unfolding evict_oldest
  evict_oldest-Models c es m =
      let (d, fresh) = IsDistinct-front es m.distinct in
      let (small, light) = All-front es m.small in
      let held : c.find k ≡ some v = m.entries k ∙ lookup-last es fresh in
      let popped : pop_back c.lru_list_ ≡ some (k, keys es) =
        ap pop_back m.order ∙ pop_back-keys es in
      let n : length (es ++ ((k, v) ∷ [])) ≡ length es + 1 = length-append es ((k, v) ∷ []) in
      let t : c.cached_bytes_ ≡ total es + value_size v = m.bytes ∙ total-append es in
      let bound : total es ≤ length es * 2 ^ 28 = total-bound es small in
      (
        record {
          lru_list_ = keys es;
          find = assign c.find k none;
          count = c.count - 1;
          cached_bytes_ = (c.cached_bytes_ + 2 ^ 64 - value_size v) % 2 ^ 64;
        },
        rw (evict_oldest, popped, held) refl,
        record {
          order = refl;
          entries = λ q. elim (Bool-cases (same_key k q)) [
            | inl e ↦ rw e (sym (ap (lookup es) (sym (same_key-≡ k q e)) ∙ fresh))
            | inr e ↦ rw e (m.entries q ∙ lookup-front es q e)
          ];
          counted = omega (arith, m.counted, n);
          bytes = omega (arith, t, bound, m.few, n);
          distinct = d;
          few = omega (arith, m.few, n);
          small = small;
        },
      )

module _ (value_bytes : ℕ) where
  is_over-cases :
      (c : TablxCache) (es : List Entry)
      → Models c es
      → value_bytes ≤ max_bytes
      → ((is_over c value_bytes ≡ true) × (0 < length es) × (¬ Fits es value_bytes))
        ⊎ ((is_over c value_bytes ≡ false) × Fits es value_bytes)
  is_over-cases c [] m h =
      let none_left : ltb 0 c.count ≡ false = ground (arith, m.counted) in
      inr (rw none_left refl, record { few = omega arith; light = omega arith })
  is_over-cases c (e ∷ es) m h =
      let some_left : ltb 0 c.count ≡ true = ground (arith, m.counted) in
      elim (dec_lt (length (e ∷ es)) max_entries) [
        | no p ↦
            let full : leb max_entries c.count ≡ true = ground (arith, m.counted) in
            inl (rw (some_left, full) refl, omega arith, λ f. absurd (omega (arith, f.few)))
        | yes p ↦
            let free : leb max_entries c.count ≡ false = ground (arith, m.counted) in
            elim (dec_le (total (e ∷ es) + value_bytes) max_bytes) [
              | yes q ↦
                  let light : ltb (max_bytes - value_bytes) c.cached_bytes_ ≡ false =
                    ground (arith, m.bytes) in
                  inr (rw (some_left, free, light) refl, record { few = p; light = q })
              | no q ↦
                  let heavy : ltb (max_bytes - value_bytes) c.cached_bytes_ ≡ true =
                    ground (arith, m.bytes) in
                  inl (
                    rw (some_left, free, heavy) refl,
                    omega arith,
                    λ f. absurd (omega (arith, f.light)),
                  )
            ]
      ]

  all-Trims : (es : List Entry) → Fits es value_bytes → Trims es es value_bytes
  all-Trims es f = record {
    dropped = [];
    split = sym (append-nil es);
    fits = f;
    longest = inl refl;
  }

  more-Trims :
      (init kept : List Entry) (last : Entry)
      → ¬ Fits (init ++ (last ∷ [])) value_bytes
      → Trims init kept value_bytes
      → Trims (init ++ (last ∷ [])) kept value_bytes
  more-Trims init kept last over t = record {
    dropped = t.dropped ++ (last ∷ []);
    split = ap (λ es. es ++ (last ∷ [])) t.split ∙ append_assoc kept t.dropped (last ∷ []);
    fits = t.fits;
    longest = elim t.longest [
      | inl e ↦
          let whole : init ≡ kept = t.split ∙ ap (λ d. kept ++ d) e ∙ append-nil kept in
          inr (
            last,
            [],
            ap (λ d. d ++ (last ∷ [])) e,
            subst (λ k. ¬ Fits (k ++ (last ∷ [])) value_bytes) whole over,
          )
      | inr (e, rest, p, over') ↦ inr (e, rest ++ (last ∷ []), ap (λ d. d ++ (last ∷ [])) p, over')
    ];
  }

  -- On a cache that holds `es`, the loop ends with the longest front of `es` that leaves room.
  pub make_room-Trims :
      (fuel : ℕ) (c : TablxCache) (es : List Entry)
      → Models c es
      → value_bytes ≤ max_bytes
      → length es ≤ fuel
      → (c' : TablxCache) × (kept : List Entry) × (make_room fuel value_bytes c ≡ some c')
        × Models c' kept
        × Trims es kept value_bytes
  unfolding make_room
  make_room-Trims zero c es m h n = elim (is_over-cases c es m h) [
    | inl (_, p, _) ↦ absurd (omega arith)
    | inr (e, f) ↦ (c, es, rw e refl, m, all-Trims es f)
  ]
  make_room-Trims (suc fuel) c [] m h n = elim (is_over-cases c [] m h) [
    | inl (_, p, _) ↦ absurd (omega arith)
    | inr (e, f) ↦ (c, [], rw e refl, m, all-Trims [] f)
  ]
  make_room-Trims (suc fuel) c (e₀ ∷ es₀) m h n = elim (is_over-cases c (e₀ ∷ es₀) m h) [
    | inr (e, f) ↦ (c, e₀ ∷ es₀, rw e refl, m, all-Trims (e₀ ∷ es₀) f)
    | inl (e, _, over) ↦
        let (init, (k, v), p) = split_last e₀ es₀ in
        let (c₁, step, m₁) = evict_oldest-Models k v c init (subst (Models c) p m) in
        let shorter : length init ≤ fuel =
          omega (arith, ap length p, length-append init ((k, v) ∷ [])) in
        let (c', kept, run, m', t) = make_room-Trims fuel c₁ init m₁ h shorter in
        let t' = more-Trims init kept (k, v) (subst (λ es. ¬ Fits es value_bytes) p over) t in
        (c', kept, rw (e, step) run, m', subst (λ es. Trims es kept value_bytes) (sym p) t')
  ]
