-- ===== src/Text/Order/Laws.antt =====
-- Laws of the sets of texts: an inserted text is a member, order is kept, and a sorted list is
-- fixed by its members.
use form_respondent_role.Prelude.{
  String, true, List, [], ◌∷◌, ◌≡◌, ◌↔◌, ◌⊎◌, refl, sym, inl, inr, arith, str_eq_iff, In, ℕ, zero,
  suc, take,
}
use form_respondent_role.Text.Order.{
  less, less_irrefl, less_trans, less_total, AllAbove, IsSorted, insert, member, place, sort,
  texts_eq,
}

pub In-insert_iff : (s a : String) (ss : List String) → In a (insert s ss) ↔ ((s ≡ a) ⊎ In a ss)
unfolding insert
In-insert_iff s a [] = ground arith
In-insert_iff s a (t ∷ ts) = ground (arith, In-insert_iff s a ts, less_total s t)

AllAbove-insert :
    (r s : String) (ss : List String) → less r s ≡ true → AllAbove r ss → AllAbove r (insert s ss)
unfolding insert
AllAbove-insert r s [] h above = ground arith
AllAbove-insert r s (t ∷ ts) h above = ground (arith, AllAbove-insert r s ts)

AllAbove-trans : (r s : String) (ss : List String) → less r s ≡ true → AllAbove s ss → AllAbove r ss
AllAbove-trans r s [] h above = tt
AllAbove-trans r s (t ∷ ts) h (p, above) = (less_trans r s t h p, AllAbove-trans r s ts h above)

pub insert-IsSorted : (s : String) (ss : List String) → IsSorted ss → IsSorted (insert s ss)
unfolding insert
insert-IsSorted s [] sorted = ground arith
insert-IsSorted s (t ∷ ts) (above, sorted) =
    ground (arith, insert-IsSorted s ts, AllAbove-insert t s ts, AllAbove-trans s t ts)

pub member_iff : (s : String) (ss : List String) → (member s ss ≡ true) ↔ In s ss
member_iff s [] = ground arith
member_iff s (t ∷ ts) = ground (arith, member_iff s ts, str_eq_iff t s)

above_of_In : (r a : String) (ss : List String) → AllAbove r ss → In a ss → less r a ≡ true
above_of_In r a [] above i = absurd i
above_of_In r a (t ∷ ts) above i = ground (arith, above_of_In r a ts)

heads_eq :
    (s t : String) (ss ts : List String)
    → AllAbove s ss
    → AllAbove t ts
    → ((t ≡ s) ⊎ In s ts)
    → ((s ≡ t) ⊎ In t ss)
    → s ≡ t
heads_eq s t ss ts p q (inl e) _ = sym e
heads_eq s t ss ts p q (inr i) (inl e) = e
heads_eq s t ss ts p q (inr i) (inr j) =
    let loop = less_trans s t s (above_of_In s t ss p j) (above_of_In t s ts q i) in
    absurd (cc (loop, less_irrefl s))

In-tail :
    (s t a : String) (ss ts : List String)
    → s ≡ t
    → AllAbove s ss
    → (In a (s ∷ ss) → In a (t ∷ ts))
    → In a ss
    → In a ts
In-tail s t a ss ts e above move i = elim (move (inr i)) [
  | inl h ↦ absurd (cc (above_of_In s a ss above i, e, h, less_irrefl s))
  | inr later ↦ later
]

-- Two strictly sorted lists with the same members are one list.
pub sorted_ext :
    (ss ts : List String) → IsSorted ss → IsSorted ts → ((a : String) → In a ss ↔ In a ts) → ss ≡ ts
sorted_ext [] [] p q same = refl
sorted_ext [] (t ∷ ts) p q same = absurd ((same t).1 (inl refl))
sorted_ext (s ∷ ss) [] p q same = absurd ((same s).0 (inl refl))
sorted_ext (s ∷ ss) (t ∷ ts) p q same =
    let heads = heads_eq s t ss ts p.0 q.0 ((same s).0 (inl refl)) ((same t).1 (inl refl)) in
    cc (
      heads,
      sorted_ext ss ts p.1 q.1 (λ a. (
        In-tail s t a ss ts heads p.0 (same a).0,
        In-tail t s a ts ss (sym heads) q.0 (same a).1,
      )),
    )

pub texts_eq_iff : (ss ts : List String) → (texts_eq ss ts ≡ true) ↔ (ss ≡ ts)
unfolding texts_eq
texts_eq_iff [] [] = ground arith
texts_eq_iff [] (t ∷ ts) = ground arith
texts_eq_iff (s ∷ ss) [] = ground arith
texts_eq_iff (s ∷ ss) (t ∷ ts) = ground (arith, str_eq_iff s t, texts_eq_iff ss ts)

pub In-place_iff : (s a : String) (ss : List String) → In a (place s ss) ↔ ((s ≡ a) ⊎ In a ss)
unfolding place
In-place_iff s a [] = ground arith
In-place_iff s a (t ∷ ts) = ground (arith, In-place_iff s a ts)

pub In-sort_iff : (a : String) (ss : List String) → In a (sort ss) ↔ In a ss
unfolding sort
In-sort_iff a [] = ground arith
In-sort_iff a (s ∷ ss) = ground (arith, In-place_iff s a (sort ss), In-sort_iff a ss)

AllAbove-take : (n : ℕ) (s : String) (ss : List String) → AllAbove s ss → AllAbove s (take n ss)
AllAbove-take zero s ss above = tt
AllAbove-take (suc n) s [] above = tt
AllAbove-take (suc n) s (t ∷ ts) (p, above) = (p, AllAbove-take n s ts above)

pub take-IsSorted : (n : ℕ) (ss : List String) → IsSorted ss → IsSorted (take n ss)
take-IsSorted zero ss sorted = tt
take-IsSorted (suc n) [] sorted = tt
take-IsSorted (suc n) (s ∷ ss) (above, sorted) =
    (AllAbove-take n s ss above, take-IsSorted n ss sorted)
