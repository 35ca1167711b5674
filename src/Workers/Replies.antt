-- ===== src/Workers/Replies.antt =====
-- packages/server/src/agents/last-reply.ts: what an agent last said (`textOf`, `lastTurn`, `lastReply`).
--
-- A block of a message is its text, if it is a text block. The text of an error is cut by characters.
use Prim.Native.String.{String, ◌++◌ as append}
use mathlib.Core.List.{reverse}
use gwarestrin.Base.{
  Bool, true, false, Option, none, some, List, [], ◌∷◌, ◌==◌, if◌then◌else◌, filter,
}
use gwarestrin.Callers.{trim_text}
use gwarestrin.Delegation.Texts.{take_text}
use gwarestrin.Workers.Turns.{Turn}

pub data Speaker : Type 0 where
  user_role assistant_role other_role : Speaker

pub data Content : Type 0 where
  plain_text : String → Content
  blocks_of : List (Option String) → Content
  no_content : Content

pub data StopReason : Type 0 where
  stop_error stop_aborted stop_length other_reason : StopReason

pub record Message : Type 0 where
  pub role : Speaker
  pub content : Content
  pub stop_reason : StopReason
  pub error_message : Option String

abbrev pub is_user : Message → Bool
is_user m = elim m.role [ user_role ↦ true | assistant_role ↦ false | other_role ↦ false ]

abbrev pub is_assistant : Message → Bool
is_assistant m = elim m.role [ user_role ↦ false | assistant_role ↦ true | other_role ↦ false ]

abbrev join_blocks : List (Option String) → String
join_blocks [] = ""
join_blocks (none ∷ bs) = join_blocks bs
join_blocks (some s ∷ bs) = append s (join_blocks bs)

abbrev text_in : Content → String
text_in (plain_text s) = s
text_in (blocks_of bs) = join_blocks bs
text_in no_content = ""

abbrev pub text_of : Message → String
text_of m = text_in m.content

-- The loop of `start`, from the end of the messages.
abbrev pub until_user : List Message → List Message
until_user [] = []
until_user (m ∷ ms) = let rest = until_user ms in if is_user m then [] else m ∷ rest

abbrev pub latest : List Message → List Message
latest list = filter is_assistant (reverse (until_user (reverse list)))

-- The text that stands last, of those that are not empty.
abbrev pub last_text : List Message → String
last_text [] = ""
last_text (m ∷ turn) =
    let rest = last_text turn in if rest == "" then trim_text (text_of m) else rest

abbrev pub last_of : List Message → Option Message
last_of [] = none
last_of (m ∷ []) = some m
last_of (m ∷ n ∷ turn) = last_of (n ∷ turn)

-- An empty message is none.
abbrev error_text : Option String → String
error_text none = ""
error_text (some s) = if s == "" then "" else append ": " (take_text 300 s)

abbrev ended_as : StopReason → Option String → Option String
ended_as stop_aborted e = some "the turn was stopped"
ended_as stop_length e = some "the reply was cut off at the model's output limit"
ended_as stop_error e = some (append "the turn ended with an error" (error_text e))
ended_as other_reason e = none

abbrev pub ended_of : Option Message → Option String
ended_of none = none
ended_of (some m) = ended_as m.stop_reason m.error_message

unfoldable pub last_turn : List Message → Turn
last_turn list = record { text = last_text (latest list); ended = ended_of (last_of (latest list)) }

abbrev says_why : Turn → String → String
says_why turn ended =
    if turn.text == ""
    then append "(no reply: " (append ended ")")
    else append turn.text (append "\n\n(" (append ended " after this)"))

abbrev reply_of : Turn → Option String → Option Message → String
reply_of turn none last = turn.text
reply_of turn (some ended) none = turn.text
reply_of turn (some ended) (some last) =
    if trim_text (text_of last) == "" then says_why turn ended else turn.text

unfoldable pub last_reply : List Message → String
unfolding last_turn
last_reply list =
    reply_of (last_turn list) (last_turn list).ended (last_of (filter is_assistant list))
