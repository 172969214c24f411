-- ===== src/Capability/Split.antt =====
-- Splitting a token at its dots.
use etl_agent.Prelude.{
  ℕ, Bool-cases, inl, inr, ==_iff, ap, ◌≡◌, refl, false, List, [], ◌∷◌, ◌++◌, All, ◌==◌,
}
use etl_agent.Prelude.Text.{Text}
use etl_agent.Capability.{cons_head, dot, split_dot}

abbrev pub HasNoDot : Text → Type 0
HasNoDot = All (λ c. (c == dot) ≡ false)

pub split_dot-append :
    (part rest : Text) → HasNoDot part → split_dot (part ++ (dot ∷ rest)) ≡ part ∷ split_dot rest
unfolding split_dot
split_dot-append [] rest h = refl
split_dot-append (c ∷ part) rest h = rw (h.0, split_dot-append part rest h.1)

pub split_dot-part : (part : Text) → HasNoDot part → split_dot part ≡ part ∷ []
unfolding split_dot
split_dot-part [] h = refl
split_dot-part (c ∷ part) h = rw (h.0, split_dot-part part h.1)

-- joining with dots
unfoldable pub join_dot : List Text → Text
join_dot [] = []
join_dot (p ∷ []) = p
join_dot (p ∷ q ∷ ps) = p ++ (dot ∷ join_dot (q ∷ ps))

join-cons_head :
    (c : ℕ) (p : Text) (ps : List Text) → join_dot (cons_head c (p ∷ ps)) ≡ c ∷ join_dot (p ∷ ps)
unfolding join_dot
join-cons_head c p [] = refl
join-cons_head c p (q ∷ ps) = refl

-- `split` returns at least one part
split_dot-cons : (s : Text) → (p : Text) × (ps : List Text) × (split_dot s ≡ p ∷ ps)
unfolding split_dot
split_dot-cons [] = ([], [], refl)
split_dot-cons (c ∷ s) = elim (Bool-cases (c == dot)) [
  | inl e ↦ ([], split_dot s, rw e)
  | inr e ↦ let (p, ps, q) = split_dot-cons s in (c ∷ p, ps, rw (e, q))
]

join-nil : (p : Text) (ps : List Text) → join_dot ([] ∷ p ∷ ps) ≡ dot ∷ join_dot (p ∷ ps)
unfolding join_dot
join-nil p ps = refl

join-empty : join_dot ([] ∷ []) ≡ []
unfolding join_dot
join-empty = refl

pub join-split : (s : Text) → join_dot (split_dot s) ≡ s
unfolding split_dot
join-split [] = join-empty
join-split (c ∷ s) =
    let (p, ps, q) = split_dot-cons s in
    let ih : join_dot (p ∷ ps) ≡ s = rw q at (join-split s) in
    elim (Bool-cases (c == dot)) [
      | inl e ↦ rw (e, q) (rw join-nil (cc (ih, (==_iff c dot).0 e)))
      | inr e ↦ rw (e, q) (rw join-cons_head (ap (λ (t : Text). c ∷ t) ih))
    ]
