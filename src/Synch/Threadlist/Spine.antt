-- ===== src/Synch/Threadlist/Spine.antt =====
-- The nodes of a thread list of kern/thread/threadlist.c from bookend to bookend, and what makes them a
-- list.
use os.Base.{ℕ, ◌≡◌, ◌≢◌, refl, sym, ap, ◌∙◌, none, List, [], ◌∷◌, ◌++◌, length, ok}
use mathlib.Core.List.{append_assoc}
use os.Synch.Threads.{NotIn}
use os.Synch.Threadlist.{
  Threadlist, threadlist_insertafternode, threadlist_insertbeforenode, tl_head, tl_tail, count_up,
  threadlist_addhead, threadlist_addtail,
}
use os.Synch.Threadlist.Links.{Links, Distinct, last_of, NotIn-right, Distinct-last}

-- The nodes from the first bookend to the last.
abbrev pub spine : List ℕ → List ℕ
spine ts = ts ++ tl_tail ∷ []

pub record IsList (s : Threadlist) (ts : List ℕ) : Type 0 where
  pub links : Links s tl_head (spine ts)
  pub head_end : s.tln_prev tl_head ≡ none
  pub tail_end : s.tln_next tl_tail ≡ none
  pub distinct : Distinct (tl_head ∷ spine ts)
  pub counted : s.tl_count ≡ length ts

-- The first node of a part of the list and its bookend, and the others.
abbrev pub first_of : List ℕ → ℕ
first_of [] = tl_tail
first_of (y ∷ ys) = y

abbrev pub others_of : List ℕ → List ℕ
others_of [] = []
others_of (y ∷ ys) = spine ys

pub first_others : (ys : List ℕ) → spine ys ≡ first_of ys ∷ others_of ys
first_others [] = refl
first_others (y ∷ ys) = refl

pub spine-append : (xs ys : List ℕ) → spine (xs ++ ys) ≡ xs ++ first_of ys ∷ others_of ys
spine-append xs ys = append_assoc xs ys (tl_tail ∷ []) ∙ ap (λ l. xs ++ l) (first_others ys)

pub NotIn-insert :
    (z : ℕ) (xs : List ℕ) (a : ℕ) (ys : List ℕ)
    → z ≢ a
    → NotIn z (xs ++ ys)
    → NotIn z (xs ++ a ∷ ys)
NotIn-insert z [] a ys ne out = (ne, out)
NotIn-insert z (x ∷ xs) a ys ne out = (out.0, NotIn-insert z xs a ys ne out.1)

pub Distinct-insert :
    (xs : List ℕ) (a : ℕ) (ys : List ℕ)
    → NotIn a (xs ++ ys)
    → Distinct (xs ++ ys)
    → Distinct (xs ++ a ∷ ys)
Distinct-insert [] a ys out d = (out, d)
Distinct-insert (x ∷ xs) a ys out d =
    (NotIn-insert x xs a ys (λ e. out.0 (sym e)) d.0, Distinct-insert xs a ys out.1 d.1)

pub NotIn-erase :
    (z : ℕ) (xs : List ℕ) (a : ℕ) (ys : List ℕ) → NotIn z (xs ++ a ∷ ys) → NotIn z (xs ++ ys)
NotIn-erase z [] a ys out = out.1
NotIn-erase z (x ∷ xs) a ys out = (out.0, NotIn-erase z xs a ys out.1)

pub Distinct-erase :
    (xs : List ℕ) (a : ℕ) (ys : List ℕ)
    → Distinct (xs ++ a ∷ ys)
    → Distinct (xs ++ ys) × NotIn a (xs ++ ys)
Distinct-erase [] a ys d = (d.1, d.0)
Distinct-erase (x ∷ xs) a ys d =
    let (e, out) = Distinct-erase xs a ys d.1 in
    ((NotIn-erase x xs a ys d.0, e), ((λ e'. (NotIn-right x xs (a ∷ ys) d.0).0 (sym e')), out))

-- The last node before a place is not the bookend behind it.
pub last-tail :
    (xs ys : List ℕ)
    → Distinct (tl_head ∷ xs ++ first_of ys ∷ others_of ys)
    → last_of tl_head xs ≢ tl_tail
last-tail xs ys d =
    let out = Distinct-last tl_head xs (first_of ys ∷ others_of ys) d in
    (NotIn-right (last_of tl_head xs) ys (tl_tail ∷ []) (rw (first_others ys) out)).0

pub Links-count :
    (s : Threadlist) (c p : ℕ) (xs : List ℕ) → Links s p xs → Links (record s { tl_count = c }) p xs
Links-count s c p [] l = tt
Links-count s c p (x ∷ xs) l = (l.0, l.1, Links-count s c x xs l.2)

pub addhead_of :
    (s w : Threadlist) (p a : ℕ)
    → p ≡ tl_head
    → threadlist_insertafternode p a s ≡ ok w
    → threadlist_addhead s a ≡ ok (count_up w)
unfolding threadlist_addhead
addhead_of s w p a e h =
    let h' : threadlist_insertafternode tl_head a s ≡ ok w = rw e at h in rw h' refl

pub addtail_of :
    (s w : Threadlist) (q a : ℕ)
    → q ≡ tl_tail
    → threadlist_insertbeforenode a q s ≡ ok w
    → threadlist_addtail s a ≡ ok (count_up w)
unfolding threadlist_addtail
addtail_of s w q a e h =
    let h' : threadlist_insertbeforenode a tl_tail s ≡ ok w = rw e at h in rw h' refl

pub last_of-nil : (xs : List ℕ) → xs ≡ [] → last_of tl_head xs ≡ tl_head
unfolding last_of
last_of-nil xs e = rw e refl

pub first_of-nil : (ys : List ℕ) → ys ≡ [] → first_of ys ≡ tl_tail
first_of-nil ys e = rw e refl

pub out_tail :
    (xs : List ℕ) (a : ℕ) (ys : List ℕ)
    → NotIn a (tl_head ∷ xs ++ first_of ys ∷ others_of ys)
    → a ≢ tl_tail
out_tail xs a ys o =
    (NotIn-right a ys (tl_tail ∷ [])
      (rw (first_others ys) (NotIn-right a xs (first_of ys ∷ others_of ys) o.1))).0
