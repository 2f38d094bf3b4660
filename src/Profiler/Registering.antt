-- ===== src/Profiler/Registering.antt =====
-- The registration of new areas (diffVMAs).
use criu_migration_operator.Base.{
  ℕ, ◌≡◌, refl, ◌∙◌, Bool, true, false, not, ◌&&◌, List, [], ◌∷◌, ◌++◌, Option, none, some, ◌==◌,
  keep, map, All, Bool-cases, inl, inr, arith, if◌then◌else◌,
}
use criu_migration_operator.Profiler.Areas.{
  VmaInfo, AddrRange, is_writable_anonymous, registered_end, is_end, is_new, diff_vmas,
}

abbrev pub range_of : VmaInfo → AddrRange
range_of v = record { start = v.start; end = v.end }

-- No two areas start at the same address.
abbrev pub AreApart : List VmaInfo → Type 0
AreApart [] = Unit
AreApart (v ∷ rest) = All (λ (u : VmaInfo). (u.start == v.start) ≡ false) rest × AreApart rest

eq_self : (n : ℕ) → (n == n) ≡ true
eq_self n = ground arith

registered_end-append :
    (start : ℕ) (l m : List AddrRange) (found : Option ℕ)
    → registered_end start found (l ++ m) ≡ registered_end start (registered_end start found l) m
unfolding registered_end
registered_end-append start [] m found = refl
registered_end-append start (r ∷ l) m found =
    registered_end-append start l m (if r.start == start then some r.end else found)

registered_end-skip :
    (start : ℕ) (found : Option ℕ) (r : AddrRange) (l : List AddrRange)
    → (r.start == start) ≡ false
    → registered_end start found (r ∷ l) ≡ registered_end start found l
unfolding registered_end
registered_end-skip start found r l h = rw h refl

registered_end-hit :
    (found : Option ℕ) (r : AddrRange) (l : List AddrRange)
    → registered_end r.start found (r ∷ l) ≡ registered_end r.start (some r.end) l
unfolding registered_end
registered_end-hit found r l = rw (eq_self r.start) refl

-- Ranges that start elsewhere do not matter.
registered_end-other :
    (start : ℕ) (found : Option ℕ) (l : List VmaInfo) (p : VmaInfo → Bool)
    → All (λ (u : VmaInfo). (u.start == start) ≡ false) l
    → registered_end start found (map range_of (keep p l)) ≡ found
unfolding registered_end
registered_end-other start found [] p h = refl
registered_end-other start found (u ∷ l) p (h, more) =
    let rest = registered_end-other start found l p more in
    elim (Bool-cases (p u)) [
      | inl e ↦
          rw e (registered_end-skip start found (range_of u) (map range_of (keep p l)) h ∙ rest)
      | inr e ↦ rw e rest
    ]

All-middle :
    (P : VmaInfo → Type 0) (before after : List VmaInfo) (v : VmaInfo)
    → All P (before ++ v ∷ after)
    → P v
All-middle P [] after v (h, more) = h
All-middle P (u ∷ before) after v (h, more) = All-middle P before after v more

module _ (p : VmaInfo → Bool) where
  -- What the registration of the areas that `p` selects makes of the end under an area's start.
  registered_end-member :
      (found : Option ℕ) (before after : List VmaInfo) (v : VmaInfo)
      → AreApart (before ++ v ∷ after)
      → registered_end v.start found (map range_of (keep p (before ++ v ∷ after)))
        ≡ (if p v then some v.end else found)
  registered_end-member found [] after v (h, more) = elim (Bool-cases (p v)) [
    | inl e ↦ rw e (
        registered_end-hit found (range_of v) (map range_of (keep p after))
        ∙ registered_end-other v.start (some v.end) after p h)
    | inr e ↦ rw e (registered_end-other v.start found after p h)
  ]
  registered_end-member found (u ∷ before) after v (h, more) =
      let apart = All-middle (λ x. (x.start == u.start) ≡ false) before after v h in
      let rest = registered_end-member found before after v more in
      elim (Bool-cases (p u)) [
        | inl e ↦ rw e (
            registered_end-skip v.start found (range_of u)
              (map range_of (keep p (before ++ v ∷ after))) (ground (arith, apart))
            ∙ rest)
        | inr e ↦ rw e rest
      ]

settled :
    (a : Bool) (e : ℕ) (o : Option ℕ)
    → (a && not (is_end e (if a && not (is_end e o) then some e else o))) ≡ false
settled false e o = refl
settled true e none = rw (eq_self e) refl
settled true e (some x) = ground arith

-- Once the areas that diffVMAs reports have been registered as well, none of them is reported again,
-- nor any other area of the process, if no two of them start at the same address.
pub diff_vmas-settles :
    (registered : List AddrRange) (before after : List VmaInfo) (v : VmaInfo)
    → AreApart (before ++ v ∷ after)
    → is_new (registered ++ map range_of (diff_vmas (before ++ v ∷ after) registered)) v ≡ false
unfolding is_new diff_vmas
diff_vmas-settles registered before after v h =
    let found = registered_end v.start none registered in
    rw
      (
        registered_end-append v.start registered
            (map range_of (keep (is_new registered) (before ++ v ∷ after))) none,
        registered_end-member (is_new registered) found before after v h,
      )
      (settled (is_writable_anonymous v) v.end found)
