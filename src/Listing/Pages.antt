-- ===== src/Listing/Pages.antt =====
-- A client that follows the tokens of ListVolumes sees every volume once, in order.
use mathlib.Core.Bool.{false≢true}
use mathlib.Core.List.{append_assoc}
use nasty_csi.Common.{
  ℕ, zero, suc, ◌<◌, String, ◌≡◌, refl, sym, subst, ap, ◌∙◌, Bool, true, false, not, ◌&&◌, ◌||◌,
  some, List, [], ◌∷◌, ◌++◌, ◌==◌, eq_iff, eq_refl, ltb, length, take, drop, take-append-drop,
  length-drop, arith, Bool-cases, inl, inr, if◌then◌else◌,
}
use nasty_csi.Common.Int.{ℤ, pos}
use nasty_csi.Common.Result.{Result, ok, err, Code, internal}
use nasty_csi.Listing.{VolumeEntry, after_token, from_token, last_id, page_of, paged, list_page}

-- Whether a volume ID is listed.
unfoldable pub is_listed : String → List VolumeEntry → Bool
is_listed id [] = false
is_listed id (e ∷ entries) = e.volume_id == id || is_listed id entries

-- The IDs are distinct, and none is the empty text.
unfoldable pub are_proper : List VolumeEntry → Bool
are_proper [] = true
are_proper (e ∷ entries) =
    not (e.volume_id == "") && (not (is_listed e.volume_id entries) && are_proper entries)

last-listed :
    (e : VolumeEntry) (xs ys : List VolumeEntry)
    → is_listed (last_id (e ∷ xs)) ((e ∷ xs) ++ ys) ≡ true
unfolding is_listed last_id
last-listed e [] ys = ground (arith, eq_refl e.volume_id)
last-listed e (f ∷ xs) ys = ground (arith, last-listed f xs ys)

after_token-last :
    (e : VolumeEntry) (xs ys : List VolumeEntry)
    → are_proper ((e ∷ xs) ++ ys) ≡ true
    → after_token (last_id (e ∷ xs)) ((e ∷ xs) ++ ys) ≡ some ys
unfolding are_proper after_token last_id
after_token-last e [] ys h = ground (arith, eq_refl e.volume_id)
after_token-last e (f ∷ xs) ys h =
    let id = last_id (f ∷ xs) in
    let rest = (f ∷ xs) ++ ys in
    let other : is_listed e.volume_id rest ≡ false = ground arith in
    let proper : are_proper rest ≡ true = ground arith in
    elim (Bool-cases (e.volume_id == id)) [
      | inl q ↦
          let listed : is_listed e.volume_id rest ≡ true =
            subst (λ t. is_listed t rest ≡ true) (sym ((eq_iff e.volume_id id).0 q))
              (last-listed f xs ys) in
          absurd (false≢true (sym other ∙ listed))
      | inr n ↦ rw n (after_token-last f xs ys proper)
    ]

-- The pages from a token on, one after the other, by a bound on their number.
joined : List VolumeEntry → Result Code (List VolumeEntry) → Result Code (List VolumeEntry)
joined page (ok rest) = ok (page ++ rest)
joined page (err c) = err c

pub follow_next :
    (String → Result Code (List VolumeEntry))
    → Result Code (List VolumeEntry × String)
    → Result Code (List VolumeEntry)
follow_next next (err c) = err c
follow_next next (ok (page, token)) = if token == "" then ok page else joined page (next token)

pub follow : ℕ → ℤ → String → List VolumeEntry → Result Code (List VolumeEntry)
follow zero max token entries = err internal
follow (suc n) max token entries =
    follow_next (λ next. follow n max next entries) (list_page max token entries)

last-nonempty :
    (e : VolumeEntry) (xs ys : List VolumeEntry)
    → are_proper ((e ∷ xs) ++ ys) ≡ true
    → (last_id (e ∷ xs) == "") ≡ false
unfolding are_proper last_id
last-nonempty e [] ys h = ground arith
last-nonempty e (f ∷ xs) ys h = last-nonempty f xs ys (ground arith)

-- What one page leaves, split at its last entry.
proper_suffix : (xs ys : List VolumeEntry) → are_proper (xs ++ ys) ≡ true → are_proper ys ≡ true
unfolding are_proper
proper_suffix [] ys h = h
proper_suffix (x ∷ xs) ys h = proper_suffix xs ys (ground arith)

listed-append :
    (id : String) (xs ys : List VolumeEntry)
    → is_listed id ys ≡ true
    → is_listed id (xs ++ ys) ≡ true
unfolding is_listed
listed-append id [] ys h = h
listed-append id (x ∷ xs) ys h = ground (arith, listed-append id xs ys h)

-- Entries before the one that the token names are passed over.
after_token-append :
    (id : String) (seen rest : List VolumeEntry)
    → are_proper (seen ++ rest) ≡ true
    → is_listed id rest ≡ true
    → after_token id (seen ++ rest) ≡ after_token id rest
unfolding are_proper after_token
after_token-append id [] rest proper listed = refl
after_token-append id (x ∷ seen) rest proper listed =
    let other : is_listed x.volume_id (seen ++ rest) ≡ false = ground arith in
    let tail : are_proper (seen ++ rest) ≡ true = ground arith in
    elim (Bool-cases (x.volume_id == id)) [
      | inl q ↦
          let found : is_listed x.volume_id (seen ++ rest) ≡ true =
            subst (λ t. is_listed t (seen ++ rest) ≡ true) (sym ((eq_iff x.volume_id id).0 q))
              (listed-append id seen rest listed) in
          absurd (false≢true (sym other ∙ found))
      | inr n ↦ rw n (after_token-append id seen rest tail listed)
    ]

-- The last entry of what has been seen names the rest.
from_token-last :
    (seen : List VolumeEntry) (e : VolumeEntry) (page rest : List VolumeEntry)
    → are_proper (seen ++ ((e ∷ page) ++ rest)) ≡ true
    → from_token (last_id (e ∷ page)) (seen ++ ((e ∷ page) ++ rest)) ≡ some rest
unfolding from_token
from_token-last seen e page rest proper =
    let shown = (e ∷ page) ++ rest in
    let tail : are_proper shown ≡ true = proper_suffix seen shown proper in
    rw
      (
        last-nonempty e page rest tail,
        after_token-append (last_id (e ∷ page)) seen shown proper (last-listed e page rest),
      )
      (after_token-last e page rest tail)

page_of-last :
    (k : ℕ) (rest : List VolumeEntry)
    → ltb (suc k) (length rest) ≡ false
    → page_of (pos (suc k)) rest ≡ (rest, "")
unfolding page_of
page_of-last k rest h = rw h (ground arith)

page_of-more :
    (k : ℕ) (e : VolumeEntry) (rest : List VolumeEntry)
    → ltb (suc k) (length (e ∷ rest)) ≡ true
    → page_of (pos (suc k)) (e ∷ rest) ≡ (e ∷ take k rest, last_id (e ∷ take k rest))
unfolding page_of
page_of-more k e rest h = rw h (ground arith)

list_page_of :
    (max : ℤ) (token : String) (entries rest : List VolumeEntry)
    → from_token token entries ≡ some rest
    → list_page max token entries ≡ ok (page_of max rest)
unfolding list_page paged
list_page_of max token entries rest h = rw h refl

follow-from :
    (n k : ℕ) (token : String) (entries seen rest : List VolumeEntry)
    → are_proper entries ≡ true
    → entries ≡ seen ++ rest
    → from_token token entries ≡ some rest
    → length rest < n
    → follow n (pos (suc k)) token entries ≡ ok rest
unfolding follow follow_next joined
follow-from zero k token entries seen rest proper whole here enough = absurd (omega arith)
follow-from (suc n) k token entries seen [] proper whole here enough =
    rw (list_page_of (pos (suc k)) token entries [] here, page_of-last k [] (ground arith)) refl
follow-from (suc n) k token entries seen (e ∷ rest) proper whole here enough =
    elim (Bool-cases (ltb (suc k) (length (e ∷ rest)))) [
      | inr small ↦
          rw
            (
              list_page_of (pos (suc k)) token entries (e ∷ rest) here,
              page_of-last k (e ∷ rest) small,
            )
            refl
      | inl more ↦
          let page = take k rest in
          let left = drop k rest in
          let shown : (e ∷ page) ++ left ≡ e ∷ rest = ap (λ t. e ∷ t) (take-append-drop k rest) in
          let split : entries ≡ seen ++ ((e ∷ page) ++ left) =
            whole ∙ ap (λ t. seen ++ t) (sym shown) in
          let split_proper : are_proper (seen ++ ((e ∷ page) ++ left)) ≡ true =
            subst (λ t. are_proper t ≡ true) split proper in
          let next : from_token (last_id (e ∷ page)) entries ≡ some left =
            subst (λ t. from_token (last_id (e ∷ page)) t ≡ some left) (sym split)
              (from_token-last seen e page left split_proper) in
          let seen_now : entries ≡ (seen ++ (e ∷ page)) ++ left =
            split ∙ sym (append_assoc seen (e ∷ page) left) in
          let rest_of =
            follow-from n k (last_id (e ∷ page)) entries (seen ++ (e ∷ page)) left proper seen_now
              next (omega (arith, length-drop k rest)) in
          let set =
            last-nonempty e page left (proper_suffix seen ((e ∷ page) ++ left) split_proper) in
          rw
            (
              list_page_of (pos (suc k)) token entries (e ∷ rest) here,
              page_of-more k e rest more,
              set,
              rest_of,
            )
            (ap ok shown)
    ]

-- A client that asks for pages of any positive size, and follows the tokens from the empty one to
-- the empty one, gets every volume once and in order, with one page more than there are volumes at
-- most, if the IDs of the volumes are distinct and not empty and the volumes stay the same.
pub follow_complete :
    (k : ℕ) (entries : List VolumeEntry)
    → are_proper entries ≡ true
    → follow (suc (length entries)) (pos (suc k)) "" entries ≡ ok entries
unfolding from_token
follow_complete k entries proper =
    follow-from (suc (length entries)) k "" entries [] entries proper refl refl (omega arith)
