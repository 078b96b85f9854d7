-- ===== src/Examples/Body.antt =====
-- Bodies that are parsed.
use shamichan.Prelude.{
  arith, map, ℕ, ◌≡◌, refl, List, [], ◌∷◌, none, true, false, ◌==◌, ◌&&◌, leb, if◌then◌else◌,
}
use shamichan.PostBody.Node.{Node, PendingNode, nil, cons}
use shamichan.PostBody.Append.{push_text}
use shamichan.Server.Locations.{PostLocation}
use shamichan.Server.Body.{Env, Flags, starts_with}
use shamichan.Server.Body.Fragment.{split_punctuation}
use shamichan.Server.Body.Links.{parse_link, detect_link}
use shamichan.Server.Body.Links.Detected.{Agrees, parse_link-detect_link}
use shamichan.PostBody.Append.Content.{content}
use shamichan.Server.Body.Plain.{item}
use shamichan.Server.Body.Kept.{content-parse}
use shamichan.Server.Body.Formatting.{code, parse, parse_at, parse_formatted, split_and_parse}
use shamichan.Server.Body.Formatting.Equation.{parse_formatted-split_and_parse}

abbrev env : Env
env = record {
  location = λ id. if id == 2 then PostLocation.exists 1 0 else PostLocation.not_fetched;
  link = λ label. none;
  is_url = starts_with (104 ∷ 116 ∷ 116 ∷ 112 ∷ 58 ∷ []);
  matches = λ i w. false;
  is_alphabetic = λ c. leb 97 c && leb c 122;
  by_token = λ t. none;
  by_first_line = λ l. none;
  plain_text = 0;
  generate = λ syntax ls. [];
}

abbrev flags : Flags
flags = record { is_open = true; quoted = false }

-- "a**b**c"
abbrev spoiler : List ℕ
spoiler = 97 ∷ 42 ∷ 42 ∷ 98 ∷ 42 ∷ 42 ∷ 99 ∷ []

parse_formatted-split_and_parse_example :
    (parse_at env flags (λ l dst frag. Node.newline) 50 code Node.empty spoiler
      ≡ parse_formatted env flags code Node.empty spoiler)
    × (parse_formatted env flags code Node.empty spoiler
        ≡ split_and_parse env flags (parse_formatted env flags) code Node.empty spoiler)
parse_formatted-split_and_parse_example =
    parse_formatted-split_and_parse env flags (λ l dst frag. Node.newline) 50 code Node.empty
      spoiler (omega arith)

-- ">>>2"
abbrev link : List ℕ
link = 62 ∷ 62 ∷ 62 ∷ 50 ∷ []

parse_link-detect_link_example :
    Agrees env link Node.empty (detect_link env link) (parse_link env Node.empty link)
parse_link-detect_link_example = parse_link-detect_link env Node.empty link

parsed_spoiler :
    parse env spoiler true
    ≡ Node.children (
        cons
          (Node.text (97 ∷ []))
          (cons (Node.spoiler (Node.text (98 ∷ []))) (cons (Node.text (99 ∷ [])) nil)))
unfolding parse push_text
parsed_spoiler = refl

-- ">>>2 #flip": a link behind a quotation mark; commands are not read in quotations.
parsed_quote :
    parse env (62 ∷ 62 ∷ 62 ∷ 50 ∷ 32 ∷ 35 ∷ 102 ∷ 108 ∷ 105 ∷ 112 ∷ []) true
    ≡ Node.quoted (
        Node.children (
          cons (Node.text (62 ∷ [])) (
            cons
              (Node.post_link 2 1 0)
              (cons (Node.text (32 ∷ 35 ∷ 102 ∷ 108 ∷ 105 ∷ 112 ∷ [])) nil))))
unfolding parse push_text
parsed_quote = refl

-- "****b": what follows an empty pair of delimiters is lost.
parsed_empty_pair : parse env (42 ∷ 42 ∷ 42 ∷ 42 ∷ 98 ∷ []) true ≡ Node.empty
unfolding parse push_text
parsed_empty_pair = refl

-- "#2d6+1"
parsed_dice :
    parse env (35 ∷ 50 ∷ 100 ∷ 54 ∷ 43 ∷ 49 ∷ []) true
    ≡ Node.pending (PendingNode.dice (shamichan.PostBody.Node.pos 1) 6 2)
unfolding parse push_text
parsed_dice = refl

-- "a, (http)" and a second line "c!", where a URL is what starts with "http:"
abbrev plain : List ℕ
plain = 97 ∷ 44 ∷ 32 ∷ 40 ∷ 104 ∷ 116 ∷ 116 ∷ 112 ∷ 41 ∷ 10 ∷ 99 ∷ 33 ∷ []

content-parse_example : content (parse env plain false) ≡ map item plain
unfolding split_punctuation
content-parse_example = content-parse env plain false refl refl
