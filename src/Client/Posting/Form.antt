-- ===== src/Client/Posting/Form.antt =====
-- The post form and its messages (client/src/post/posting.rs: `Inner`, `update_extra` and
-- `replace_text`). The text area is its text and its selection's end, where it is there.
use shamichan.Prelude.{
  ℕ, ◌+◌, ◌-◌, List, [], ◌∷◌, ◌++◌, Option, none, some, Bool, true, false, not, if◌then◌else◌, ltb,
  ◌==◌, ◌||◌, length, take, drop, get_elem?,
}
use shamichan.Feeds.Index.{is_empty}
use shamichan.Server.Body.Formatting.{lines}
use shamichan.Decimal.{show}
use shamichan.Server.Body.{utf8_length}
use shamichan.Client.Posting.{State, state_eq, is_allocated}
use shamichan.Client.Posting.Events.{Request}
use shamichan.Client.Posting.Events as Events

pub data FormMessage : Type 0 where
  set_state : State → FormMessage
  -- the ID and the text of `PostQuoteReq`
  quote_post : ℕ → List ℕ → FormMessage
  text_input : List ℕ → FormMessage
  close : FormMessage
  -- the position of the cursor, and whether it is the first request
  focus : ℕ → Bool → FormMessage

pub record TextArea : Type 0 where
  pub value : List ℕ
  pub selection_end : ℕ

pub record Form : Type 0 where
  pub state : State
  pub body : List ℕ
  -- `id` of the properties
  pub post_id : ℕ
  -- the message for the next frame
  pub render_task : Option FormMessage
  pub text_area : Option TextArea
  -- what is sent to the agent, and to the form itself
  pub requests : List Request
  pub messages : List FormMessage

abbrev pub is_draft : State → Bool
is_draft (State.draft thread) = true
is_draft s = false

-- ">>", the ID, and a whitespace before it: whether a newline is wanted after it, and the text.
abbrev pub link_after : Option ℕ → ℕ → Bool → Bool × List ℕ
link_after none id selected = (true, 62 ∷ 62 ∷ show id)
link_after (some c) id selected =
    let link = 62 ∷ 62 ∷ show id in
    if c == 10
    then (true, link)
    else if c == 32
    then (false, link)
    else (false, (if selected then 10 else 32) ∷ link)

-- The text with the whitespace behind it, before the character that follows.
abbrev pub followed : Option ℕ → Bool → Bool × List ℕ → Bool × List ℕ
followed none selected (newline, s) = (false, if newline || selected then s ++ 10 ∷ [] else s)
followed (some c) selected (newline, s) =
    if c == 32 || c == 10
    then (false, if newline || selected then s ++ 10 ∷ [] else s)
    else (true, s ++ (if selected then 10 else 32) ∷ [])

abbrev pub quoted_lines : List (List ℕ) → List ℕ
quoted_lines [] = []
quoted_lines (l ∷ ls) = 62 ∷ l ++ 10 ∷ quoted_lines ls

abbrev pub with_selection : List ℕ → Bool × List ℕ → Bool × List ℕ
with_selection [] r = r
with_selection (c ∷ text) (newline, s) =
    let t = s ++ quoted_lines (lines (c ∷ text)) in (newline, if newline then t ++ 10 ∷ [] else t)

-- The inserted text, and whether the cursor goes before its last character.
unfoldable pub quote_text : List ℕ → ℕ → ℕ → List ℕ → Bool × List ℕ
quote_text old at id text =
    let selected = not (is_empty text) in
    with_selection text (
      followed (get_elem? old at) selected
        (link_after (get_elem? old (length old - 1)) id selected))

-- The text area's text and the cursor after a quote. None is a panic: the position is beyond the
-- text.
unfoldable pub quote : TextArea → ℕ → List ℕ → Option (List ℕ × ℕ)
unfolding quote_text
quote ta id text =
    let r = quote_text ta.value ta.selection_end id text in
    let cursor = ta.selection_end + length r.1 in
    if ltb (length ta.value) ta.selection_end
    then none
    else some (
      take ta.selection_end ta.value ++ (r.1 ++ drop ta.selection_end ta.value),
      if r.0 then cursor - 1 else cursor,
    )

-- `commit`
abbrev pub commit : Form → List ℕ → Form
commit f s = record f { requests = f.requests ++ Events.commit_text s ∷ [] }

-- `replace_text`
abbrev pub replace_text : Form → TextArea → List ℕ × ℕ → Bool → Form
replace_text f ta (new, at) is_committed =
    let g = record f { text_area = some (record ta { value = new }) } in
    let h = if is_committed then commit g new else g in
    record h { render_task = some (focus at true) }

abbrev pub replaced : Form → TextArea → Option (List ℕ × ℕ) → Option Form
replaced f ta none = none
replaced f ta (some r) = some (replace_text f ta r (is_draft f.state || is_empty ta.value))

abbrev pub set_id : Form → State → Form
set_id f (State.allocated post) = record f { post_id = post }
set_id f State.ready = record f { body = []; post_id = 0 }
set_id f s = f

abbrev pub focused : Form → State → Form
focused f s =
    if state_eq f.state State.ready || is_allocated s
    then record f { messages = f.messages ++ focus (utf8_length f.body) true ∷ [] }
    else f

-- Without a text area, there is an error that is logged.
abbrev pub in_text_area : Form → (TextArea → Option (Form × Bool)) → Option (Form × Bool)
in_text_area f use_it = elim f.text_area [ none ↦ some (f, false) | some ta ↦ use_it ta ]

abbrev pub rendered : Option Form → Option (Form × Bool)
rendered none = none
rendered (some f) = some (f, true)

abbrev pub next_focus : Form → ℕ → Bool → Form
next_focus f at true = record f { render_task = some (focus at false) }
next_focus f at false = record f { render_task = none }

-- `update_extra`: the form, and whether it is rendered again. None is a panic.
unfoldable pub update_extra : Form → FormMessage → Option (Form × Bool)
unfolding quote
update_extra f (set_state s) =
    if state_eq f.state s
    then some (f, false)
    else some (record (focused (set_id f s) s) { state = s }, true)
update_extra f (text_input s) =
    let g = record f { body = s } in in_text_area g (λ ta. some (commit g s, false))
update_extra f close = some (record f { requests = f.requests ++ Events.close ∷ [] }, false)
update_extra f (quote_post id text) =
    in_text_area f (λ ta. rendered (replaced f ta (quote ta id text)))
update_extra f (focus at first) = in_text_area f (λ ta. some (next_focus f at first, false))
