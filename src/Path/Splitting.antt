-- ===== src/Path/Splitting.antt =====
-- PathFromString and PathStartsWith.
use holder.Prelude.{
  ℕ, ◌+◌, ◌<◌, ◌≡◌, refl, ap, ◌≢◌, ◌↔◌, true, false, List, [], ◌∷◌, ◌++◌, Name, name_beq_iff,
  length, count, arith, nat_eq, length-append,
}
use holder.Path.{
  components, stored, path_from_string, rooted, size, matches_to_end, path_starts_with, cons_head,
}

-- The components joined by the separator again.
pub join : ℕ → List Name → Name
join sep [] = []
join sep (s ∷ []) = s
join sep (s ∷ r ∷ ss) = s ++ sep ∷ join sep (r ∷ ss)

pub join_step :
    (sep : ℕ) (c : ℕ) (ss : List Name) → 0 < length ss → join sep (cons_head c ss) ≡ c ∷ join sep ss
unfolding join
join_step sep c [] h = absurd (omega arith)
join_step sep c (s ∷ []) h = refl
join_step sep c (s ∷ r ∷ ss) h = refl

pub join_nil : (sep : ℕ) (ss : List Name) → 0 < length ss → join sep ([] ∷ ss) ≡ sep ∷ join sep ss
unfolding join
join_nil sep [] h = absurd (omega arith)
join_nil sep (s ∷ ss) h = refl

length-cons_head : (c : ℕ) (ss : List Name) → 0 < length ss → length (cons_head c ss) ≡ length ss
length-cons_head c [] h = absurd (omega arith)
length-cons_head c (s ∷ ss) h = refl

pub length-components : (sep : ℕ) (path : Name) → length (components sep path) ≡ count sep path + 1
unfolding components count
length-components sep [] = refl
length-components sep (c ∷ cs) = ground (
  arith,
  length-components sep cs,
  length-cons_head c (components sep cs) (omega (arith, length-components sep cs)),
)

join-components : (sep : ℕ) (path : Name) → join sep (components sep path) ≡ path
unfolding components join
join-components sep [] = refl
join-components sep (c ∷ cs) =
    let some_left : 0 < length (components sep cs) = omega (arith, length-components sep cs) in
    ground (
      arith,
      join-components sep cs,
      join_nil sep (components sep cs) some_left,
      join_step sep c (components sep cs) some_left,
    )

-- No component holds the separator.
abbrev pub Free : ℕ → List Name → Type 0
Free sep [] = Unit {0}
Free sep (s ∷ ss) = (count sep s ≡ 0) × Free sep ss

cons_head-Free : (sep c : ℕ) (ss : List Name) → c ≢ sep → Free sep ss → Free sep (cons_head c ss)
unfolding count
cons_head-Free sep c [] h f = ground arith
cons_head-Free sep c (s ∷ ss) h f = ground arith

components-Free : (sep : ℕ) (path : Name) → Free sep (components sep path)
unfolding components count
components-Free sep [] = (refl, tt)
components-Free sep (c ∷ cs) =
    ground (arith, components-Free sep cs, cons_head-Free sep c (components sep cs))

-- PathFromString splits a path at every separator: one component more than there are separators,
-- none holds a separator, and joined by the separator they are the path.
pub path_from_string-splits :
    (sep : ℕ) (path : Name)
    → let p = path_from_string path sep in
      (size p ≡ count sep path + 1) × Free sep p.analyzed_path × (join sep p.analyzed_path ≡ path)
unfolding path_from_string size
path_from_string-splits sep path =
    (length-components sep path, components-Free sep path, join-components sep path)

-- For a separator that is not 0, no path is rooted for the trace: a separator at its start is zero
-- in the buffer by then.
pub rooted-path_from_string :
    (sep : ℕ) (path : Name) → sep ≢ 0 → rooted (path_from_string path sep) ≡ false
unfolding path_from_string rooted stored
rooted-path_from_string sep [] h = ground arith
rooted-path_from_string sep (c ∷ cs) h = ground arith

matches_to_end_iff :
    (prefix path : List Name)
    → (matches_to_end prefix path ≡ true) ↔ ((rest : List Name) × (path ≡ prefix ++ rest))
unfolding matches_to_end
matches_to_end_iff [] path = (λ _. (path, refl), λ _. refl)
matches_to_end_iff (s ∷ prefix) [] =
    (λ h. absurd (ground arith), λ (rest, e). absurd (ground arith))
matches_to_end_iff (s ∷ prefix) (r ∷ path) = (
  λ h.
      let (rest, e) = (matches_to_end_iff prefix path).0 (ground arith) in
      (rest, ground (arith, name_beq_iff s r)),
  λ (rest, e).
      let tail = (matches_to_end_iff prefix path).1 (rest, ground arith) in
      ground (arith, name_beq_iff s r),
)

-- PathStartsWith holds exactly when the path is the prefix and some rest.
pub path_starts_with_iff :
    (path prefix : List Name)
    → (path_starts_with path prefix ≡ true) ↔ ((rest : List Name) × (path ≡ prefix ++ rest))
unfolding path_starts_with
path_starts_with_iff path prefix = (
  λ h. (matches_to_end_iff prefix path).0 (ground arith),
  λ (rest, e).
      let found = (matches_to_end_iff prefix path).1 (rest, e) in
      ground (arith, ap length e, length-append prefix rest),
)
