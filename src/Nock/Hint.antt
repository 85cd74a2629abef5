-- ===== src/Nock/Hint.antt =====
-- `sock_match` and `parse_wilt`: the jet registrations of a %wild hint and how they match a core.
use trinitite.Base.{
  ℕ, zero, suc, ◌≡◌, ◌≢◌, ◌↔◌, inl, inr, refl, ap, Bool, true, false, ◌==◌, ==_iff, if◌then◌else◌,
  arith, List, [], ◌∷◌, Bool-cases, ◌≤◌, length, take, take_of_le, ◌∙◌,
}
use mathlib.Core.Bool.{false≢true}
use trinitite.Base.Outcome.{Outcome, ok, crash, fault, ◌>>=◌}
use trinitite.Noun.{Noun, direct, indirect, cell, contents_eq}
use trinitite.Noun.Atom.{contents_eq_iff}

-- Bit 62 of an indirect word is 0 and its hash is not, so `direct_val` of it is not 0 either. A cape
-- that is a cell over an atom in `data` reads memory through that atom.
unfoldable pub sock_match : Noun → Noun → Noun → Outcome Bool
sock_match (direct c) data_ subject = ok (if c == 0 then contents_eq data_ subject else true)
sock_match (indirect l) data_ subject = ok true
sock_match (cell c d) data_ (direct v) = ok false
sock_match (cell c d) data_ (indirect l) = ok false
sock_match (cell c d) (direct w) (cell h t) = fault
sock_match (cell c d) (indirect l) (cell h t) = fault
sock_match (cell c d) (cell x y) (cell h t) = do
  head_matches ← sock_match c x h
  if head_matches then sock_match d y t else ok false

-- What a sock says of a noun: here exactly the data, anything, or a cell with both parts matched.
pub data Matches : Noun → Noun → Noun → Type 0 where
  exactly : {d n : Noun} (c : ℕ) → c ≡ 0 → d ≡ n → Matches (direct c) d n
  anything : {d n : Noun} (c : ℕ) → c ≢ 0 → Matches (direct c) d n
  anything_big : {d n : Noun} (l : List ℕ) → Matches (indirect l) d n
  both :
      {c d x y h t : Noun}
      → Matches c x h
      → Matches d y t
      → Matches (cell c d) (cell x y) (cell h t)

-- The data has a cell wherever the cape has one.
abbrev pub Covers : Noun → Noun → Type 0
Covers (direct c) x = Unit
Covers (indirect l) x = Unit
Covers (cell c d) (direct w) = ⊥
Covers (cell c d) (indirect l) = ⊥
Covers (cell c d) (cell x y) = Covers c x × Covers d y

exact-eq : {c : ℕ} {d n : Noun} → Matches (direct c) d n → c ≡ 0 → d ≡ n
exact-eq (exactly c z e) h = e
exact-eq (anything c ne) h = absurd (ne h)

both-parts :
    {c d x y h t : Noun} → Matches (cell c d) (cell x y) (cell h t) → Matches c x h × Matches d y t
both-parts (both p q) = (p, q)

not-Matches-direct : {c d x : Noun} {v : ℕ} → ¬ Matches (cell c d) x (direct v)
not-Matches-direct m = elim m [ ]

not-Matches-indirect : {c d x : Noun} {l : List ℕ} → ¬ Matches (cell c d) x (indirect l)
not-Matches-indirect m = elim m [ ]

abbrev pub Decides : Outcome Bool → Type 0 → Type 0
Decides o P = (b : Bool) × (o ≡ ok b) × ((b ≡ true) ↔ P)

decide_both :
    (c d x y h t : Noun)
    → Decides (sock_match c x h) (Matches c x h)
    → Decides (sock_match d y t) (Matches d y t)
    → Decides
        (sock_match (cell c d) (cell x y) (cell h t))
        (Matches (cell c d) (cell x y) (cell h t))
unfolding sock_match
decide_both c d x y h t (true, e, i) (b, f, j) =
    (b, rw (e, f), (λ k. both (i.0 refl) (j.0 k), λ m. j.1 (both-parts m).1))
decide_both c d x y h t (false, e, i) q =
    (false, rw e, (λ k. absurd (false≢true k), λ m. i.1 (both-parts m).0))

-- Where the data of a sock has a cell wherever its cape has one, `sock_match` decides whether the
-- noun matches it, and reads no memory through an atom.
pub sock_match-Decides :
    (cape x n : Noun) → Covers cape x → Decides (sock_match cape x n) (Matches cape x n)
sock_match-Decides (direct c) x n h = unfold sock_match in exact c x n
  where
    exact :
        (c : ℕ) (x n : Noun)
        → Decides (ok (if c == 0 then contents_eq x n else true)) (Matches (direct c) x n)
    exact c x n = elim (Bool-cases (c == 0)) [
      | inl z ↦ rw z (
        contents_eq x n,
        refl,
        (
          λ k. exactly c ((==_iff c 0).0 z) ((contents_eq_iff x n).0 k),
          λ m. (contents_eq_iff x n).1 (exact-eq m ((==_iff c 0).0 z)),
        ),
      )
      | inr z ↦ rw z (true, refl, (λ k. anything c (ground arith), λ m. refl))
    ]
sock_match-Decides (indirect l) x n h =
    unfold sock_match in (true, refl, (λ k. anything_big l, λ m. refl))
sock_match-Decides (cell c d) (direct w) n h = absurd h
sock_match-Decides (cell c d) (indirect l) n h = absurd h
sock_match-Decides (cell c d) (cell x y) (direct v) h =
    unfold sock_match in
    (false, refl, (λ k. absurd (false≢true k), λ m. absurd (not-Matches-direct m)))
sock_match-Decides (cell c d) (cell x y) (indirect l) h =
    unfold sock_match in
    (false, refl, (λ k. absurd (false≢true k), λ m. absurd (not-Matches-indirect m)))
sock_match-Decides (cell c d) (cell x y) (cell n t) h =
    decide_both c d x y n t (sock_match-Decides c x n h.0) (sock_match-Decides d y t h.1)

pub record Entry : Type 0 where
  pub label : Noun
  pub cape : Noun
  pub template : Noun

-- WILT_MAX
abbrev pub wilt_max : ℕ
wilt_max = 16

-- One element of the list, `[label [cape data]]`.
unfoldable pub parse_entry : Noun → Outcome Entry
parse_entry (direct v) = crash "%wild: malformed wilt entry: expected [label sock] cell"
parse_entry (indirect l) = crash "%wild: malformed wilt entry: expected [label sock] cell"
parse_entry (cell l (direct v)) = crash "%wild: malformed wilt entry: sock must be [cape data] cell"
parse_entry (cell l (indirect k)) =
    crash "%wild: malformed wilt entry: sock must be [cape data] cell"
parse_entry (cell l (cell c d)) = ok (record { label = l; cape = c; template = d })

-- The loop with room for `room` more entries; what does not fit is dropped, and so is the end.
unfoldable pub parse_wilt_loop : ℕ → Noun → Outcome (List Entry)
unfolding parse_entry
parse_wilt_loop zero wilt = ok []
parse_wilt_loop (suc room) (direct v) = ok []
parse_wilt_loop (suc room) (indirect l) = ok []
parse_wilt_loop (suc room) (cell elem rest) = do
  entry ← parse_entry elem
  entries ← parse_wilt_loop room rest
  ok (entry ∷ entries)

unfoldable pub parse_wilt : Noun → Outcome (List Entry)
unfolding parse_wilt_loop
parse_wilt wilt = parse_wilt_loop wilt_max wilt

-- The noun of a registration list.
abbrev pub wilt_noun : List Entry → Noun
wilt_noun [] = direct 0
wilt_noun (e ∷ es) = cell (cell e.label (cell e.cape e.template)) (wilt_noun es)

parse_wilt_loop-wilt_noun :
    (n : ℕ) (es : List Entry) → parse_wilt_loop n (wilt_noun es) ≡ ok (take n es)
unfolding parse_wilt_loop
parse_wilt_loop-wilt_noun zero es = refl
parse_wilt_loop-wilt_noun (suc n) [] = refl
parse_wilt_loop-wilt_noun (suc n) (e ∷ es) = rw (parse_wilt_loop-wilt_noun n es)

-- Parsing the noun of a registration list gives its first 16 entries back, all of a list that has
-- no more.
pub parse_wilt-wilt_noun :
    (es : List Entry)
    → (parse_wilt (wilt_noun es) ≡ ok (take wilt_max es))
      × (length es ≤ wilt_max → parse_wilt (wilt_noun es) ≡ ok es)
unfolding parse_wilt
parse_wilt-wilt_noun es = (
  parse_wilt_loop-wilt_noun wilt_max es,
  λ h. parse_wilt_loop-wilt_noun wilt_max es ∙ ap ok (take_of_le wilt_max es h),
)
