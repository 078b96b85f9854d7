-- ===== src/Server/Body/Fragment.antt =====
-- Text without formatting: lines, words, commands, links and URLs (server/src/body/fragment.rs and
-- server/src/body/urls.rs).
use shamichan.Prelude.{
  ℕ, zero, suc, List, [], ◌∷◌, Option, none, some, Bool, true, false, not, if◌then◌else◌, ◌==◌,
  ◌&&◌, ◌||◌, drop,
}
use shamichan.PostBody.Node.{Node, PendingNode, EmbedProvider}
use shamichan.PostBody.Append.{add_assign, add_string}
use shamichan.Client.Location.{text_eq}
use shamichan.Server.Body.{Env, Flags, split, starts_with}
use shamichan.Server.Body.Commands.{parse_countdown, parse_autobahn, parse_dice}
use shamichan.Server.Body.Links.{parse_link, repeat}

-- The providers of the patterns, in order.
abbrev pub providers : List EmbedProvider
providers =
    EmbedProvider.you_tube ∷ EmbedProvider.you_tube ∷ EmbedProvider.you_tube ∷ EmbedProvider.twitter
    ∷ EmbedProvider.twitter ∷ EmbedProvider.twitter ∷ EmbedProvider.twitter ∷ EmbedProvider.imgur
    ∷ EmbedProvider.sound_cloud ∷ EmbedProvider.sound_cloud ∷ EmbedProvider.sound_cloud
    ∷ EmbedProvider.drop_box ∷ EmbedProvider.drop_box ∷ EmbedProvider.vimeo ∷ EmbedProvider.vimeo
    ∷ EmbedProvider.vimeo ∷ EmbedProvider.vimeo ∷ EmbedProvider.vimeo ∷ EmbedProvider.vimeo
    ∷ EmbedProvider.coub ∷ EmbedProvider.bit_chute ∷ EmbedProvider.invidious ∷ []

abbrev pub find_provider : Env → List ℕ → ℕ → List EmbedProvider → Option EmbedProvider
find_provider env word i [] = none
find_provider env word i (p ∷ ps) =
    let rest = find_provider env word (suc i) ps in if env.matches i word then some p else rest

abbrev pub embedded : List ℕ → Option EmbedProvider → Node
embedded word none = Node.url word
embedded word (some p) = Node.embed p word

-- `parse_http_url`
unfoldable pub parse_http_url : Env → List ℕ → Flags → Option Node
parse_http_url env word flags =
    if env.is_url word
    then some (embedded word (if flags.is_open then none else find_provider env word 0 providers))
    else none

abbrev pub http : List ℕ
http = 104 ∷ 116 ∷ 116 ∷ 112 ∷ []

-- "magnet:?", "ftp" and "bitcoin"
abbrev pub is_other_scheme : List ℕ → Bool
is_other_scheme word =
    starts_with (109 ∷ 97 ∷ 103 ∷ 110 ∷ 101 ∷ 116 ∷ 58 ∷ 63 ∷ []) word
    || (starts_with (102 ∷ 116 ∷ 112 ∷ []) word
        || starts_with (98 ∷ 105 ∷ 116 ∷ 99 ∷ 111 ∷ 105 ∷ 110 ∷ []) word)

-- The URL in a word without leading signs
abbrev pub url_of : Env → List ℕ → Flags → Option Node
url_of env word flags =
    if starts_with http word
    then parse_http_url env word flags
    else if is_other_scheme word && env.is_url word
    then some (Node.url word)
    else none

abbrev pub count_gt : List ℕ → ℕ
count_gt [] = 0
count_gt (c ∷ cs) = let rest = count_gt cs in if c == 62 then suc rest else 0

abbrev pub with_url : Node → List ℕ → ℕ → Option Node → Node
with_url dst word gt none = add_string dst word
with_url dst word zero (some n) = add_assign dst n
with_url dst word (suc k) (some n) = add_assign (add_string dst (repeat (suc k))) n

abbrev pub word_after : Env → Node → List ℕ → Flags → List ℕ → Node
word_after env dst word flags [] = add_string dst word
word_after env dst word flags (c ∷ cs) =
    with_url dst word (count_gt word) (url_of env (c ∷ cs) flags)

-- `parse_word`
unfoldable pub parse_word : Env → Node → List ℕ → Flags → Node
unfolding add_assign add_string parse_http_url
parse_word env dst word flags = word_after env dst word flags (drop (count_gt word) word)

abbrev pub is_punctuation : ℕ → Bool
is_punctuation c =
    c == 33
    || (c == 34
        || (c == 39
            || (c == 40
                || (c == 41
                    || (c == 44
                        || (c == 45
                            || (c == 46
                                || (c == 58
                                    || (c == 59 || (c == 63 || (c == 91 || c == 93)))))))))))

-- A word of two characters or more without punctuation at its end, and that punctuation or 0.
abbrev pub split_trailing : List ℕ → List ℕ × ℕ
split_trailing [] = ([], 0)
split_trailing (c ∷ []) = (c ∷ [], 0)
split_trailing (c ∷ d ∷ []) = if is_punctuation d then (c ∷ [], d) else (c ∷ d ∷ [], 0)
split_trailing (c ∷ d ∷ e ∷ cs) = let rest = split_trailing (d ∷ e ∷ cs) in (c ∷ rest.0, rest.1)

-- `split_punctuation`
unfoldable pub split_punctuation : List ℕ → ℕ × List ℕ × ℕ
split_punctuation [] = (0, [], 0)
split_punctuation (c ∷ []) = (0, c ∷ [], 0)
split_punctuation (c ∷ d ∷ cs) =
    if is_punctuation c
    then (let r = split_trailing (d ∷ cs) in (c, r.0, r.1))
    else (let r = split_trailing (c ∷ d ∷ cs) in (0, r.0, r.1))

abbrev countdown_prefix : List ℕ
countdown_prefix = 99 ∷ 111 ∷ 117 ∷ 110 ∷ 116 ∷ 100 ∷ 111 ∷ 119 ∷ 110 ∷ []

abbrev autobahn_prefix : List ℕ
autobahn_prefix = 97 ∷ 117 ∷ 116 ∷ 111 ∷ 98 ∷ 97 ∷ 104 ∷ 110 ∷ []

-- The command without an argument, if it is one.
abbrev simple_command : List ℕ → Option PendingNode
simple_command comm =
    if text_eq comm (102 ∷ 108 ∷ 105 ∷ 112 ∷ [])
    then some PendingNode.flip
    else if text_eq comm (56 ∷ 98 ∷ 97 ∷ 108 ∷ 108 ∷ [])
    then some PendingNode.eight_ball
    else if text_eq comm (112 ∷ 121 ∷ 117 ∷ [])
    then some PendingNode.pyu
    else if text_eq comm (112 ∷ 99 ∷ 111 ∷ 117 ∷ 110 ∷ 116 ∷ [])
    then some PendingNode.p_count
    else none

-- A node, whether one was written, and the trailing punctuation that is left.
abbrev pub Parsed : Type 0
Parsed = Node × Bool × ℕ

abbrev pub with_argument : Node → ℕ → Option Node → Parsed
with_argument dst trail none = (dst, false, trail)
with_argument dst trail (some n) = (add_assign dst n, true, if trail == 41 then 0 else trail)

abbrev pub command_of : Node → List ℕ → List ℕ → ℕ → ℕ → Option PendingNode → Parsed
command_of dst comm word lead trail (some p) = (add_assign dst (Node.pending p), true, trail)
command_of dst comm word lead trail none =
    let src = if trail == 41 then drop (if lead == 0 then 1 else 2) word else comm in
    with_argument dst trail (
      if starts_with countdown_prefix comm
      then parse_countdown src
      else if starts_with autobahn_prefix comm
      then parse_autobahn src
      else parse_dice src)

-- `parse_command`, of the command without its sign and the word with its punctuation
unfoldable pub parse_command : Node → List ℕ → List ℕ → ℕ → ℕ → Parsed
unfolding add_assign parse_countdown parse_autobahn parse_dice
parse_command dst comm word lead trail = command_of dst comm word lead trail (simple_command comm)

abbrev pub add_char : Node → ℕ → Node
add_char dst c = if c == 0 then dst else add_string dst (c ∷ [])

module _ (env : Env) (flags : Flags) where
  abbrev pub or_word : List ℕ → Parsed → Node × ℕ
  or_word word (dst, true, trail) = (dst, trail)
  or_word word (dst, false, trail) = (parse_word env dst word flags, trail)

  abbrev pub parse_inner : Node → List ℕ → List ℕ → ℕ → ℕ → Node × ℕ
  parse_inner dst orig [] lead trail = (parse_word env dst [] flags, trail)
  parse_inner dst orig (c ∷ cs) lead trail =
      if c == 35 && not flags.quoted
      then or_word (c ∷ cs) (parse_command dst cs orig lead trail)
      else if c == 62
      then (let r = parse_link env dst (c ∷ cs) in or_word (c ∷ cs) (r.0, r.1, trail))
      else (parse_word env dst (c ∷ cs) flags, trail)

  abbrev pub parse_split : Node → List ℕ → ℕ × List ℕ × ℕ → Node
  parse_split dst orig (lead, word, trail) =
      let r = parse_inner (add_char dst lead) orig word lead trail in add_char r.0 r.1

  abbrev pub parse_words : Node → List (List ℕ) → Node
  parse_words dst [] = dst
  parse_words dst (w ∷ ws) =
      parse_words (parse_split (add_string dst (32 ∷ [])) w (split_punctuation w)) ws

  abbrev pub parse_first : Node → List (List ℕ) → Node
  parse_first dst [] = dst
  parse_first dst (w ∷ ws) = parse_words (parse_split dst w (split_punctuation w)) ws

  -- `parse_line_fragment`
  unfoldable pub parse_line_fragment : Node → List ℕ → Node
  unfolding add_string parse_word parse_command parse_link split_punctuation
  parse_line_fragment dst [] = dst
  parse_line_fragment dst (c ∷ cs) = parse_first dst (split 32 (c ∷ cs))

  abbrev pub parse_lines : Node → List (List ℕ) → Node
  parse_lines dst [] = dst
  parse_lines dst (l ∷ ls) = parse_lines (parse_line_fragment (add_assign dst Node.newline) l) ls

  abbrev pub parse_all : Node → List (List ℕ) → Node
  parse_all dst [] = dst
  parse_all dst (l ∷ ls) = parse_lines (parse_line_fragment dst l) ls

  -- `parse_fragment`
  unfoldable pub parse_fragment : Node → List ℕ → Node
  unfolding add_assign parse_line_fragment
  parse_fragment dst [] = dst
  parse_fragment dst (c ∷ cs) = parse_all dst (split 10 (c ∷ cs))
