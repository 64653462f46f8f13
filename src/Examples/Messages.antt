-- ===== src/Examples/Messages.antt =====
-- A stream of two chat events, whose text the platform delivers in two pieces.
use ocs_testbench.Common.{
  ℕ, ◌≡◌, refl, String, List, [], ◌∷◌, ◌++◌, Option, none, some, map, ◌==◌, if◌then◌else◌,
}
use ocs_testbench.Assistant.{SseEvent, token, finished}
use ocs_testbench.Assistant.Chat.{initial_chat}
use ocs_testbench.Assistant.Stream.{data_prefix, chunk, closed, read_stream}
use ocs_testbench.Assistant.Stream.Sent.{message, play, read_stream-messages}

abbrev size : String → ℕ
size s = 1

-- "[1]" and "{}" stand for the two events.
abbrev print : SseEvent → List ℕ
print (token s) = 91 ∷ 49 ∷ 93 ∷ []
print e = 123 ∷ 125 ∷ []

abbrev parse_json : List ℕ → Option SseEvent
parse_json [] = none
parse_json (c ∷ cs) = if c == 91 then some (token "Run 7") else some (finished none none)

abbrev answer : List SseEvent
answer = token "Run 7" ∷ finished none none ∷ []

-- The first chunk ends within the first message.
abbrev pieces : List (List ℕ)
pieces =
    (data_prefix ++ 91 ∷ [])
    ∷ (49 ∷ 93 ∷ 10 ∷ 10 ∷ message parse_json print size 5 (finished none none))
    ∷ []

read_stream-messages_example :
    read_stream parse_json size 5 [] (map chunk pieces ++ closed ∷ []) initial_chat
    ≡ play parse_json print size 5 answer initial_chat
read_stream-messages_example =
    read_stream-messages parse_json print size 5 answer pieces [] initial_chat
      ((refl, (refl, (refl, (refl, tt)))), ((refl, (refl, (refl, tt))), tt)) refl
