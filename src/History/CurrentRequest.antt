-- ===== src/History/CurrentRequest.antt =====
-- The current request of a conversation: none or one that its history knows.
use cursor_byok_lite.Prelude.{
  ◌≡◌, refl, sym, ap, ◌∙◌, subst, true, false, ◌||◌, List, [], ◌∷◌, Option, none, some, ◌⊎◌, inl,
  inr, arith, if◌then◌else◌, on_found, Bool-cases, Option-cases, or_right, some-eq,
}
use cursor_byok_lite.Prelude.Int.{ℤ, pos, eqb_ℤ_iff}
use cursor_byok_lite.Prelude.Text.{Text, str_eq_refl, is_empty, trim_space, trim_space_idem}
use cursor_byok_lite.History.{HistoryEntry}
use cursor_byok_lite.History.Loop.{
  is_of, any_of, conversation_has_request_entry, last_request, loop_request, is_lost,
}

-- The current request is none where the history has none, or one of the history.
unfoldable pub Settled : List HistoryEntry → Text → ℤ → Type 0
Settled entries id turn =
    (trim_space id ≡ id)
    × (((is_empty id ≡ true) × (last_request entries ≡ none))
        ⊎ ((is_empty id ≡ false) × (any_of id turn entries ≡ true)))

is_of_self :
    (entry : HistoryEntry) → is_of (trim_space entry.request_id) entry.turn_seq entry ≡ true
is_of_self entry =
    let same = (eqb_ℤ_iff entry.turn_seq entry.turn_seq).1 refl in
    rw (str_eq_refl (trim_space entry.request_id), same) (ground arith)

last_request-any_of :
    (entries : List HistoryEntry) (found : HistoryEntry)
    → last_request entries ≡ some found
    → (is_empty (trim_space found.request_id) ≡ false)
      × (any_of (trim_space found.request_id) found.turn_seq entries ≡ true)
unfolding last_request any_of
last_request-any_of [] found h = absurd (ground arith)
last_request-any_of (entry ∷ entries) found h = elim (Option-cases (last_request entries)) [
  | inl e ↦
      let here : (if is_empty (trim_space entry.request_id) then none else some entry)
          ≡ some found =
        sym (
          ap
            (λ o.
              on_found o (if is_empty (trim_space entry.request_id) then none else some entry) some)
            e)
        ∙ h in
      elim (Bool-cases (is_empty (trim_space entry.request_id))) [
        | inl f ↦ absurd (ground (arith, f, here))
        | inr f ↦
            let same : entry ≡ found = some-eq (ground (arith, f, here)) in
            subst
              (λ x.
                (is_empty (trim_space x.request_id) ≡ false)
                × (is_of (trim_space x.request_id) x.turn_seq entry
                      || any_of (trim_space x.request_id) x.turn_seq entries
                    ≡ true))
              same (f, rw (is_of_self entry) refl)
      ]
  | inr (x, e) ↦
      let later : some x ≡ some found =
        sym (
          ap
            (λ o.
              on_found o (if is_empty (trim_space entry.request_id) then none else some entry) some)
            e)
        ∙ h in
      let deeper = last_request-any_of entries found (e ∙ later) in
      (deeper.0, or_right _ _ deeper.1)
]

kept_known :
    (entries : List HistoryEntry) (id : Text) (turn : ℤ)
    → trim_space id ≡ id
    → (is_empty id ≡ false)
    → (is_empty id ≡ true) ⊎ (any_of id turn entries ≡ true)
    → Settled entries id turn
unfolding Settled
kept_known entries id turn trimmed filled (inl e) = absurd (ground (arith, e, filled))
kept_known entries id turn trimmed filled (inr h) = (trimmed, inr (filled, h))

picked : Text → ℤ → Option HistoryEntry → Text × ℤ
picked id turn found =
    on_found found (id, turn)
      (λ entry. if is_empty id then (trim_space entry.request_id, entry.turn_seq) else (id, turn))

pub loop_request-Settled :
    (entries : List HistoryEntry) (id : Text) (turn : ℤ)
    → trim_space id ≡ id
    → (is_empty id ≡ true) ⊎ (any_of id turn entries ≡ true)
    → (let request = loop_request entries id turn in Settled entries request.0 request.1)
unfolding Settled loop_request picked
loop_request-Settled entries id turn trimmed known = elim (Option-cases (last_request entries)) [
  | inl e ↦
      let now : Settled entries id turn = elim (Bool-cases (is_empty id)) [
        | inl f ↦ (trimmed, inl (f, e))
        | inr f ↦ kept_known entries id turn trimmed f known
      ] in
      subst (λ o. let request = picked id turn o in Settled entries request.0 request.1) (sym e) now
  | inr (x, e) ↦
      let now : (let request = picked id turn (some x) in Settled entries request.0 request.1) =
        elim (Bool-cases (is_empty id)) [
          | inl f ↦ rw f (trim_space_idem x.request_id, inr (last_request-any_of entries x e))
          | inr f ↦ rw f (kept_known entries id turn trimmed f known)
        ] in
      subst (λ o. let request = picked id turn o in Settled entries request.0 request.1) (sym e) now
]

-- A settled request is found again.
pub loop_request-same :
    (entries : List HistoryEntry) (id : Text) (turn : ℤ)
    → Settled entries id turn
    → loop_request entries id turn ≡ (id, turn)
unfolding Settled loop_request
loop_request-same entries id turn (trimmed, inl (empty, missing)) = rw missing refl
loop_request-same entries id turn (trimmed, inr (filled, h)) =
    elim (Option-cases (last_request entries)) [
      | inl e ↦ rw e refl
      | inr (x, e) ↦ rw (e, filled) refl
    ]

-- A settled request is not lost.
pub kept_request :
    (entries : List HistoryEntry) (id : Text) (turn : ℤ)
    → Settled entries id turn
    → is_lost entries id turn ≡ false
unfolding Settled is_lost conversation_has_request_entry
kept_request entries id turn (trimmed, inl (empty, missing)) = rw empty refl
kept_request entries id turn (trimmed, inr (filled, h)) = rw (trimmed, filled, h) refl

trim_nothing : trim_space [] ≡ []
unfolding trim_space
trim_nothing = refl

unless_lost :
    (entries : List HistoryEntry) (id : Text) (turn : ℤ)
    → trim_space id ≡ id
    → is_empty id ≡ false
    → is_lost entries id turn ≡ false
    → any_of id turn entries ≡ true
unfolding is_lost conversation_has_request_entry
unless_lost entries id turn trimmed filled kept =
    let any : any_of (trim_space id) turn entries ≡ true =
      ground (arith, kept, filled, ap is_empty trimmed) in
    subst (λ t. any_of t turn entries ≡ true) trimmed any

-- What is left of the current request is none or known.
pub known_request :
    (entries : List HistoryEntry) (current : Text) (turn : ℤ)
    → trim_space current ≡ current
    → (let lost = is_lost entries current turn in
        let id = if lost then [] else current in
        (trim_space id ≡ id)
        × ((is_empty id ≡ true) ⊎ (any_of id (if lost then pos 0 else turn) entries ≡ true)))
known_request entries current turn trimmed = elim (Bool-cases (is_lost entries current turn)) [
  | inl e ↦ rw e (trim_nothing, inl refl)
  | inr e ↦ rw e (
    trimmed,
    elim (Bool-cases (is_empty current)) [
      | inl f ↦ inl f
      | inr f ↦ inr (unless_lost entries current turn trimmed f e)
    ],
  )
]
