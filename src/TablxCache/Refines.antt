-- ===== src/TablxCache/Refines.antt =====
-- `get` and `put` of the cache against its contract.
use fast_gdb.Base.{
  ℕ, suc, ◌*◌, ◌/◌, ◌^◌, ◌≤◌, ◌<◌, ◌≡◌, inl, inr, refl, ap, sym, ◌∙◌, subst, true, false, List, [],
  ◌∷◌, ◌++◌, Option, none, some, arith, length, ltb, Bool-cases, Option-cases, All,
}
use fast_gdb.TablxCache.{
  TablxCacheKey, same_key, TablxCacheValue, value_size, max_entries, max_bytes, TablxCache,
  to_front, assign, get, replace, insert, put,
}
use fast_gdb.TablxCache.Entries.{Entry, keys, total, lookup, without, same_key-≡}
use fast_gdb.TablxCache.Without.{
  IsSmall, Models, total-bound, keys-without, lookup-without_other, lookup-without_self,
  IsDistinct-without, All-without, without-counts, All-lookup,
}
use native.Mathlib.Decide.{dec_lt}
use fast_gdb.TablxCache.Loop.{Trims, make_room-Trims}

-- The entry goes to the front.
abbrev pub used : List Entry → TablxCacheKey → TablxCacheValue → List Entry
used es key v = (key, v) ∷ without key es

module _ (c : TablxCache) (es : List Entry) (m : Models c es) (key : TablxCacheKey) where
  front-order : to_front key c.lru_list_ ≡ key ∷ keys (without key es)
  front-order = ap (to_front key) m.order ∙ ap (λ t. key ∷ t) (sym (keys-without key es))

  front-entries :
      (v : TablxCacheValue) (k : TablxCacheKey)
      → assign c.find key (some v) k ≡ lookup (used es key v) k
  front-entries v k = elim (Bool-cases (same_key key k)) [
    | inl e ↦ rw e refl
    | inr e ↦ rw e (m.entries k ∙ sym (lookup-without_other key es k e))
  ]

  found-entries :
      (v : TablxCacheValue) (k : TablxCacheKey)
      → c.find key ≡ some v
      → c.find k ≡ lookup (used es key v) k
  found-entries v k h = elim (Bool-cases (same_key key k)) [
    | inl e ↦ rw e (ap c.find (sym (same_key-≡ key k e)) ∙ h)
    | inr e ↦ rw e (m.entries k ∙ sym (lookup-without_other key es k e))
  ]

  -- What `get` returns of the entries, and how it leaves them.
  abbrev pub GetOf : Option TablxCacheValue → Type 0
  GetOf none = (get c key).0 ≡ none × Models (get c key).1 es
  GetOf (some v) = ((get c key).0 ≡ some v) × Models (get c key).1 (used es key v)

  -- On a cache that holds some entries, `get` returns the value of the entry with the key, which becomes the last
  -- used; without such an entry it returns nothing and changes nothing.
  pub get-Models : GetOf (lookup es key)
  unfolding get
  get-Models = elim (Option-cases (lookup es key)) [
    | inl e ↦ let e' : c.find key ≡ none = m.entries key ∙ e in rw (e, get, e') (refl, m)
    | inr (v, e) ↦
        let e' : c.find key ≡ some v = m.entries key ∙ e in
        let (n, t) = without-counts key es v e in
        rw (e, get, e')
          (
            refl,
            record {
              order = front-order;
              entries = λ k. found-entries v k e';
              counted = omega (arith, m.counted, n);
              bytes = omega (arith, m.bytes, t);
              distinct =
                  (lookup-without_self key es m.distinct, IsDistinct-without key es m.distinct);
              few = omega (arith, m.few, n);
              small = (All-lookup key es v m.small e, All-without key es m.small);
            },
          )
  ]

  replace-Models :
      (old value : TablxCacheValue)
      → lookup es key ≡ some old
      → length value.offsets ≤ 2 ^ 25
      → Models (replace c key old value) (used es key value)
  unfolding replace
  replace-Models old value e h =
      let (n, t) = without-counts key es old e in
      let fresh : lookup (without key es) key ≡ none = lookup-without_self key es m.distinct in
      let rest : All IsSmall (without key es) = All-without key es m.small in
      let bound : total (without key es) ≤ length (without key es) * 2 ^ 28 =
        total-bound (without key es) rest in
      let old_small : length old.offsets ≤ 2 ^ 25 = All-lookup key es old m.small e in
      record {
        order = front-order;
        entries = front-entries value;
        counted = omega (arith, m.counted, n);
        bytes = omega (arith, m.bytes, t, bound, m.few, n);
        distinct = (fresh, IsDistinct-without key es m.distinct);
        few = omega (arith, m.few, n);
        small = (h, rest);
      }

insert-Models :
    (c : TablxCache) (es : List Entry) (key : TablxCacheKey) (value : TablxCacheValue)
    → Models c es
    → lookup es key ≡ none
    → length es < max_entries
    → length value.offsets ≤ 2 ^ 25
    → Models (insert c key value) ((key, value) ∷ es)
unfolding insert
insert-Models c es key value m fresh few h = record {
  order = ap (λ t. key ∷ t) m.order;
  entries =
      λ k. elim (Bool-cases (same_key key k)) [ inl e ↦ rw e refl | inr e ↦ rw e (m.entries k) ];
  counted = omega (arith, m.counted);
  bytes = omega (arith, m.bytes, total-bound es m.small);
  distinct = (fresh, m.distinct);
  few = omega (arith, few);
  small = (h, m.small);
}

lookup-front_none :
    (kept dropped : List Entry) (key : TablxCacheKey)
    → lookup (kept ++ dropped) key ≡ none
    → lookup kept key ≡ none
lookup-front_none [] dropped key h = refl
lookup-front_none ((k, v) ∷ kept) dropped key h = elim (Bool-cases (same_key k key)) [
  | inl e ↦ let h' : some v ≡ none = rw e at h in cc
  | inr e ↦ rw e (lookup-front_none kept dropped key (rw e at h))
]

length-keys : (es : List Entry) → length (keys es) ≡ length es
length-keys [] = refl
length-keys ((k, v) ∷ es) = ap suc (length-keys es)

-- How `put` changes the entries.
pub data Puts (es : List Entry) (key : TablxCacheKey) (value : TablxCacheValue)
    : List Entry → Type 0 where
  too_large : 2 ^ 25 < length value.offsets → Puts es key value es
  replaced :
      (old : TablxCacheValue) → lookup es key ≡ some old → Puts es key value (used es key value)
  inserted :
      (kept : List Entry)
      → lookup es key ≡ none
      → Trims es kept (value_size value)
      → Puts es key value ((key, value) ∷ kept)

module _ (c : TablxCache) (es : List Entry) (key : TablxCacheKey) (offsets : List ℕ)
    (feature_count : ℕ) where
  abbrev value : TablxCacheValue
  value = record { offsets = offsets; feature_count = feature_count }

  abbrev pub PutsTo : Option TablxCache → Type 0
  PutsTo o =
      (c' : TablxCache) × (es' : List Entry) × (o ≡ some c') × Models c' es' × Puts es key value es'

  -- On a cache that holds some entries, `put` ends with defined steps and the cache holds: the same entries where
  -- there are more than 2 ^ 25 offsets; the entries with the new value in place of the key's old one and as the
  -- last used; or, for a key without an entry, the new one in front of the longest front of the entries that leaves
  -- it room, in number and in bytes.
  pub put-Models : Models c es → PutsTo (put c key offsets feature_count)
  unfolding put
  put-Models m = elim (dec_lt (2 ^ 25) (length offsets)) [
    | yes p ↦
        let e : ltb (max_bytes / 8) (length offsets) ≡ true = ground arith in
        rw e (c, es, refl, m, too_large p)
    | no p ↦
        let e : ltb (max_bytes / 8) (length offsets) ≡ false = ground arith in
        rw e (elim (Option-cases (lookup es key)) [
          | inr (old, h) ↦
              let h' : c.find key ≡ some old = m.entries key ∙ h in
              rw h' (
                replace c key old value,
                used es key value,
                refl,
                replace-Models c es m key old value h (omega arith),
                replaced old h,
              )
          | inl h ↦
              let h' : c.find key ≡ none = m.entries key ∙ h in
              let fuel : length c.lru_list_ ≡ length es = ap length m.order ∙ length-keys es in
              let (c₁, kept, run, m₁, t) =
                make_room-Trims (value_size value) (length c.lru_list_) c es m (omega arith)
                  (omega (arith, fuel)) in
              let fresh : lookup kept key ≡ none =
                lookup-front_none kept t.dropped key (subst (λ l. lookup l key ≡ none) t.split h) in
              rw (h', run)
                (
                  insert c₁ key value,
                  (key, value) ∷ kept,
                  refl,
                  insert-Models c₁ kept key value m₁ fresh t.fits.few (omega arith),
                  inserted kept h t,
                )
        ])
  ]
