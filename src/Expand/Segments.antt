-- ===== src/Expand/Segments.antt =====
-- internal/app/query/expand.go: expandSegments and replaceSegments.
use topbase.Prelude.{
  ◌≡◌, true, if◌then◌else◌, is_empty, Bool-cases, inl, inr, Result, ok, ◌>>=◌, >>=-eq-ok,
  ok-transport,
}
use topbase.Text.{Text}
use topbase.QueryIr.{Condition, Filter, Filters, filter, nil, cons, append}

pub data Error : Type 0 where
  store_failed no_query : Error
  foreign_key_required : Text → Error

-- A round of the loop puts filters in front of those of the rounds behind it.
abbrev in_front : Result Error Filters → Result Error Filters → Result Error Filters
in_front first rest = first >>= λ fs. rest >>= λ gs. ok (append fs gs)

module _ (find : Text → Result Error Filters) where
  unfoldable mutual
    pub replace_segments : Filters → Result Error Filters
    replace_segments nil = ok nil
    replace_segments (cons f fs) = in_front (replace_segment f) (replace_segments fs)

    -- What takes the place of one filter.
    pub replace_segment : Filter → Result Error Filters
    replace_segment (filter c ands ors) =
        let kept = (do
          inner ← replace_segments ands
          others ← replace_segments ors
          ok (cons (filter c inner others) nil)) in
        if is_empty c.segment_id then kept else find c.segment_id

-- No filter of a tree names a segment.
unfoldable mutual
  pub AreFree : Filters → Type 0
  AreFree nil = Unit
  AreFree (cons f fs) = IsFree f × AreFree fs

  pub IsFree : Filter → Type 0
  IsFree (filter c ands ors) = (is_empty c.segment_id ≡ true) × (AreFree ands × AreFree ors)

nil-AreFree : AreFree nil
unfolding AreFree
nil-AreFree = tt

append-AreFree : (fs gs : Filters) → AreFree fs → AreFree gs → AreFree (append fs gs)
unfolding AreFree
append-AreFree nil gs h k = k
append-AreFree (cons f fs) gs (p, h) k = (p, append-AreFree fs gs h k)

in_front-AreFree :
    (first rest : Result Error Filters) (out : Filters)
    → ((fs : Filters) → first ≡ ok fs → AreFree fs)
    → ((fs : Filters) → rest ≡ ok fs → AreFree fs)
    → in_front first rest ≡ ok out
    → AreFree out
in_front-AreFree first rest out h k e =
    let (fs, a, e1) = >>=-eq-ok first _ e in
    let (gs, b, e2) = >>=-eq-ok rest _ e1 in
    ok-transport AreFree e2 (append-AreFree fs gs (h fs a) (k gs b))

module _ (find : Text → Result Error Filters) where
  kept-AreFree :
      (c : Condition) (ands ors : Result Error Filters) (out : Filters)
      → is_empty c.segment_id ≡ true
      → ((fs : Filters) → ands ≡ ok fs → AreFree fs)
      → ((fs : Filters) → ors ≡ ok fs → AreFree fs)
      → (ands >>= λ inner. ors >>= λ others. ok (cons (filter c inner others) nil)) ≡ ok out
      → AreFree out
  unfolding AreFree
  kept-AreFree c ands ors out n h k e =
      let (inner, a, e1) = >>=-eq-ok ands _ e in
      let (others, b, e2) = >>=-eq-ok ors _ e1 in
      ok-transport AreFree e2 ((n, (h inner a, k others b)), tt)

module _ (find : Text → Result Error Filters)
    (closed : (id : Text) (fs : Filters) → find id ≡ ok fs → AreFree fs) where
  mutual
    unfolding replace_segments

    replaced-AreFree : (fs out : Filters) → replace_segments find fs ≡ ok out → AreFree out
    replaced-AreFree nil out e = ok-transport AreFree e nil-AreFree
    replaced-AreFree (cons f fs) out e =
        in_front-AreFree (replace_segment find f) (replace_segments find fs) out
          (replaced_one-AreFree f) (replaced-AreFree fs) e

    replaced_one-AreFree :
        (f : Filter) (out : Filters) → replace_segment find f ≡ ok out → AreFree out
    replaced_one-AreFree (filter c ands ors) out e = elim (Bool-cases (is_empty c.segment_id)) [
      | inl plain ↦
          kept-AreFree find c (replace_segments find ands) (replace_segments find ors) out plain
            (replaced-AreFree ands) (replaced-AreFree ors) (rw plain at e)
      | inr named ↦ closed c.segment_id out (rw named at e)
    ]

-- If no stored segment names a segment itself, then none is left anywhere in the filters.
pub replace_segments-AreFree :
    (find : Text → Result Error Filters)
    → ((id : Text) (fs : Filters) → find id ≡ ok fs → AreFree fs)
    → (fs out : Filters) → replace_segments find fs ≡ ok out
    → AreFree out
replace_segments-AreFree find closed fs out e = replaced-AreFree find closed fs out e
