-- ===== src/LruCache/Recent.antt =====
-- An entry that was put is found as long as fewer than `cap` calls follow.
use learning_cpp.Prelude.{
  ℕ, zero, suc, ◌+◌, ◌≤◌, ◌<◌, ◌≡◌, ◌≢◌, refl, ap, ◌∙◌, arith, ◌==◌, Option, some, List, [], ◌∷◌,
  ◌++◌, length, Option-cases, inl, inr, Bool-cases, take,
}
use mathlib.Core.Path.{subst}
use learning_cpp.LruCache.{LruCache, new_cache, get}
use learning_cpp.LruCache.Refines.{
  Entry, entries, lookup, without, drop_last, put_entry, get_entry, get_refines,
}
use learning_cpp.LruCache.Runs.{Call, run, run_entries, run_refines, new_cache-Inv}

-- No call puts a key.
abbrev pub AreOther : ℕ → List Call → Type 0
AreOther k [] = Unit
AreOther k (Call.puts j v ∷ calls) = (j ≢ k) × AreOther k calls
AreOther k (Call.gets j ∷ calls) = AreOther k calls

-- A key's value is among the first `n` entries.
abbrev IsWithin : ℕ → ℕ → ℕ → List Entry → Type 0
IsWithin k v n l = lookup k (take n l) ≡ some v

IsWithin-more : (k v n : ℕ) (l : List Entry) → IsWithin k v n l → IsWithin k v (suc n) l
unfolding lookup
IsWithin-more k v zero l h = absurd (ground arith)
IsWithin-more k v (suc n) [] h = h
IsWithin-more k v (suc n) ((key, w) ∷ l) h = ground (arith, IsWithin-more k v n l)

IsWithin-without :
    (k v j n : ℕ) (l : List Entry) → j ≢ k → IsWithin k v n l → IsWithin k v n (without j l)
unfolding lookup without
IsWithin-without k v j zero l d h = h
IsWithin-without k v j (suc n) [] d h = h
IsWithin-without k v j (suc n) ((key, w) ∷ l) d h =
    ground (arith, IsWithin-without k v j n l d, IsWithin-more k v n (without j l))

take-drop_last : (n : ℕ) (l : List Entry) → n < length l → take n (drop_last l) ≡ take n l
unfolding drop_last
take-drop_last zero l h = refl
take-drop_last (suc n) [] h = absurd (omega arith)
take-drop_last (suc n) (e ∷ []) h = absurd (omega arith)
take-drop_last (suc n) (e ∷ e' ∷ l) h = ap (◌∷◌ e) (take-drop_last n (e' ∷ l) (omega arith))

lookup-take : (k v n : ℕ) (l : List Entry) → IsWithin k v n l → lookup k l ≡ some v
unfolding lookup
lookup-take k v zero l h = absurd (ground arith)
lookup-take k v (suc n) [] h = h
lookup-take k v (suc n) ((key, w) ∷ l) h = ground (arith, lookup-take k v n l)

module _ (cap k v : ℕ) where
  IsWithin-put_entry :
      (j w n : ℕ) (l : List Entry)
      → j ≢ k
      → n < cap
      → IsWithin k v n l
      → IsWithin k v (suc n) (put_entry cap j w l)
  unfolding put_entry lookup
  IsWithin-put_entry j w n l d b h =
      let front = (j, w) ∷ without j l in
      ground (
        arith,
        IsWithin-without k v j n l d h,
        λ (f : suc n < length front). ap (lookup k) (take-drop_last (suc n) front f),
      )

  IsWithin-get_entry :
      (j n : ℕ) (l : List Entry) → IsWithin k v n l → IsWithin k v (suc n) (get_entry j l).1
  unfolding get_entry lookup
  IsWithin-get_entry j n l h = elim (Option-cases (lookup j l)) [
    | inl e ↦ rw (get_entry, e) (IsWithin-more k v n l h)
    | inr (u, e) ↦
        rw (get_entry, e)
          (elim (Bool-cases (j == k)) [
            | inl t ↦ ground (arith, lookup-take k v n l h, e)
            | inr t ↦ ground (arith, IsWithin-without k v j n l (λ q. ground arith) h)
          ])
  ]

  IsWithin-run_entries :
      (calls : List Call) (n : ℕ) (l : List Entry)
      → AreOther k calls
      → n + length calls ≤ cap
      → IsWithin k v n l
      → IsWithin k v (n + length calls) (run_entries cap calls l).1
  unfolding run_entries
  IsWithin-run_entries [] n l o b h =
      let e : n ≡ n + 0 = omega arith in subst (λ i. IsWithin k v i l) e h
  IsWithin-run_entries (Call.puts j w ∷ calls) n l o b h =
      let e : suc n + length calls ≡ n + suc (length calls) = omega arith in
      subst (λ i. IsWithin k v i (run_entries cap calls (put_entry cap j w l)).1) e
        (IsWithin-run_entries calls (suc n) _ o.1 (omega arith)
          (IsWithin-put_entry j w n l o.0 (omega arith) h))
  IsWithin-run_entries (Call.gets j ∷ calls) n l o b h =
      let e : suc n + length calls ≡ n + suc (length calls) = omega arith in
      subst (λ i. IsWithin k v i (run_entries cap calls (get_entry j l).1).1) e
        (IsWithin-run_entries calls (suc n) _ o (omega arith) (IsWithin-get_entry j n l h))

  put_first : (l : List Entry) → 0 < cap → IsWithin k v 1 (put_entry cap k v l)
  unfolding put_entry lookup
  put_first l b =
      let front = (k, v) ∷ without k l in
      ground (arith, λ (f : 1 < length front). ap (lookup k) (take-drop_last 1 front f))

run_entries-append :
    (cap : ℕ) (calls others : List Call) (l : List Entry)
    → (run_entries cap (calls ++ others) l).1
      ≡ (run_entries cap others (run_entries cap calls l).1).1
unfolding run_entries
run_entries-append cap [] others l = refl
run_entries-append cap (Call.puts k v ∷ calls) others l =
    run_entries-append cap calls others (put_entry cap k v l)
run_entries-append cap (Call.gets k ∷ calls) others l =
    run_entries-append cap calls others (get_entry k l).1

-- On a new cache, after any calls: a value that is put is found by `get` after fewer than `cap` further
-- calls, none of which puts the same key.
pub get_recent :
    (cap k v : ℕ) (before after : List Call)
    → AreOther k after
    → length after < cap
    → (os : List (Option ℕ)) × ((c : LruCache) × ((c' : LruCache) × ((run
                (before ++ Call.puts k v ∷ after)
                (new_cache cap)
              ≡ some (os, c))
            × (get k c ≡ some (some v, c')))))
unfolding get_entry run_entries
get_recent cap k v before after o b =
    let calls = before ++ Call.puts k v ∷ after in
    let (c, (e, left)) = run_refines calls (new_cache cap) (new_cache-Inv cap) in
    let (c', (e', left')) = get_refines c k left.inv in
    let l = (run_entries cap before []).1 in
    let found : lookup k (run_entries cap after (put_entry cap k v l)).1 ≡ some v =
      lookup-take k v (1 + length after) _ (
        IsWithin-run_entries cap k v after 1 (put_entry cap k v l) o (omega arith)
          (put_first cap k v l (omega arith))) in
    let there : lookup k (entries c) ≡ some v =
      ap (lookup k) (left.entries_are ∙ run_entries-append cap before (Call.puts k v ∷ after) [])
      ∙ found in
    (_, (c, (c', (e, ground (arith, e', there)))))
