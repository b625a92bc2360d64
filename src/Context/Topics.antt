-- ===== src/Context/Topics.antt =====
-- The topics that a dispatcher subscribes to, from the texts of its configuration:
-- dispatcher/common/src/context/StartupDispatcherCtx.cpp.
use Prim.Native.String.{String, ◌++◌ as str_append}
use Prim.Native.Char.{code}
use text.Mathlib.TextLemmas.{nil-append, cons-append}
use fy_s.Common.{
  ℕ, zero, suc, ◌+◌, ◌*◌, ◌≡◌, ◌≢◌, refl, ap, ◌∙◌, Bool, true, false, ◌||◌, some, List, [], ◌∷◌,
  ◌++◌, map, length, get_elem?, ◌==◌, arith, length-append, length-map, some_eq,
}
use fy_s.Scripting.Texts.{has_char}
use fy_s.Context.Dispatcher.{
  is_empty_text, lines_from, parse_to_array, topics_of_groups, sub_topics_of,
}

-- How a configuration writes a list of names.
unfoldable pub join : List String → String
join [] = ""
join (x ∷ []) = x
join (x ∷ y ∷ ys) = str_append x (str_append "," (join (y ∷ ys)))

-- Names without a comma, of which the last one is not empty.
abbrev pub Names : List String → Type 0
Names [] = Unit
Names (x ∷ []) = (has_char 44 x ≡ false) × (is_empty_text x ≡ false)
Names (x ∷ y ∷ ys) = (has_char 44 x ≡ false) × Names (y ∷ ys)

or_split : (a b : Bool) → (a || b) ≡ false → (a ≡ false) × (b ≡ false)
or_split false b h = (refl, h)
or_split true b h = absurd (cc h)

lines_from-last : (x : String) → has_char 44 x ≡ false → lines_from x ≡ (x, [])
unfolding lines_from has_char
lines_from-last String.[] h = refl
lines_from-last (String.◌∷◌ c s) h =
    let (other, none_later) = or_split (code c == 44) (has_char 44 s) h in
    rw (other, lines_from-last s none_later) refl

comma_append : (rest : String) → str_append "," rest ≡ String.◌∷◌ "," rest
comma_append rest =
    cons-append "," "" rest ∙ ap (λ (s : String). String.◌∷◌ "," s) (nil-append rest)

lines_from-join :
    (x rest : String)
    → has_char 44 x ≡ false
    → lines_from (str_append x (str_append "," rest)) ≡ (x, parse_to_array rest)
unfolding lines_from has_char parse_to_array
lines_from-join String.[] rest h =
    ap lines_from (nil-append (str_append "," rest) ∙ comma_append rest)
lines_from-join (String.◌∷◌ c s) rest h =
    let (other, none_later) = or_split (code c == 44) (has_char 44 s) h in
    ap lines_from (cons-append c s (str_append "," rest))
    ∙ rw (other, lines_from-join s rest none_later) refl

not_empty : (x rest : String) → is_empty_text (str_append x (str_append "," rest)) ≡ false
not_empty String.[] rest = ap is_empty_text (nil-append (str_append "," rest) ∙ comma_append rest)
not_empty (String.◌∷◌ c s) rest = ap is_empty_text (cons-append c s (str_append "," rest))

pub parse_to_array-join : (xs : List String) → Names xs → parse_to_array (join xs) ≡ xs
unfolding parse_to_array join
parse_to_array-join [] h = refl
parse_to_array-join (x ∷ []) (plain, some_text) = rw (some_text, lines_from-last x plain) refl
parse_to_array-join (x ∷ y ∷ ys) (plain, h) =
    rw (not_empty x (join (y ∷ ys)), lines_from-join x (join (y ∷ ys)) plain)
      (ap (λ rest. x ∷ rest) (parse_to_array-join (y ∷ ys) h))

-- What a dispatcher of some groups subscribes to: a topic of each group, or the bare topics where there
-- are no groups.
pub record Subscribed (groups topics : List String) (subs : List String) : Type 0 where
  pub bare : groups ≡ [] → subs ≡ topics
  pub of_group :
      (t g : ℕ) (topic group : String)
      → get_elem? topics t ≡ some topic
      → get_elem? groups g ≡ some group
      → get_elem? subs (t * length groups + g) ≡ some (str_append group (str_append "_" topic))
  pub number : groups ≢ [] → length subs ≡ length topics * length groups

get_elem?-append_left :
    (xs ys : List String) (i : ℕ) (x : String)
    → get_elem? xs i ≡ some x
    → get_elem? (xs ++ ys) i ≡ some x
get_elem?-append_left [] ys i x h = absurd (cc h)
get_elem?-append_left (z ∷ xs) ys zero x h = h
get_elem?-append_left (z ∷ xs) ys (suc i) x h = get_elem?-append_left xs ys i x h

get_elem?-append_right :
    (xs ys : List String) (i : ℕ) → get_elem? (xs ++ ys) (length xs + i) ≡ get_elem? ys i
get_elem?-append_right [] ys i = ap (get_elem? ys) (omega arith)
get_elem?-append_right (x ∷ xs) ys i =
    let next : suc (length xs) + i ≡ suc (length xs + i) = omega arith in
    ap (get_elem? (x ∷ (xs ++ ys))) next ∙ get_elem?-append_right xs ys i

get_elem?-map :
    (f : String → String) (xs : List String) (i : ℕ) (x : String)
    → get_elem? xs i ≡ some x
    → get_elem? (map f xs) i ≡ some (f x)
get_elem?-map f [] i x h = absurd (cc h)
get_elem?-map f (z ∷ xs) zero x h = ap (λ (a : String). some (f a)) (some_eq h)
get_elem?-map f (z ∷ xs) (suc i) x h = get_elem?-map f xs i x h

length-topics_of_groups :
    (groups topics : List String)
    → length (topics_of_groups groups topics) ≡ length topics * length groups
unfolding topics_of_groups
length-topics_of_groups groups [] = grind arith
length-topics_of_groups groups (topic ∷ topics) =
    let here = λ (group : String). str_append group (str_append "_" topic) in
    length-append (map here groups) (topics_of_groups groups topics)
    ∙ grind (arith, length-map here groups, length-topics_of_groups groups topics)

topic_of_group :
    (groups topics : List String) (t g : ℕ) (topic group : String)
    → get_elem? topics t ≡ some topic
    → get_elem? groups g ≡ some group
    → get_elem? (topics_of_groups groups topics) (t * length groups + g)
      ≡ some (str_append group (str_append "_" topic))
unfolding topics_of_groups
topic_of_group groups [] t g topic group h k = absurd (cc h)
topic_of_group groups (first ∷ topics) zero g topic group h k =
    let here = λ (name : String). str_append name (str_append "_" first) in
    let same : 0 * length groups + g ≡ g = grind arith in
    ap (get_elem? (map here groups ++ topics_of_groups groups topics)) same
    ∙ get_elem?-append_left (map here groups) (topics_of_groups groups topics) g (here group)
        (get_elem?-map here groups g group k)
    ∙ ap (λ (name : String). some (str_append group (str_append "_" name))) (some_eq h)
topic_of_group groups (first ∷ topics) (suc t) g topic group h k =
    let here = λ (name : String). str_append name (str_append "_" first) in
    let after : suc t * length groups + g ≡ length (map here groups) + (t * length groups + g) =
      grind (arith, length-map here groups) in
    ap (get_elem? (map here groups ++ topics_of_groups groups topics)) after
    ∙ get_elem?-append_right (map here groups) (topics_of_groups groups topics)
        (t * length groups + g)
    ∙ topic_of_group groups topics t g topic group h k

pub sub_topics_of-Subscribed :
    (groups topics : List String) → Subscribed groups topics (sub_topics_of groups topics)
unfolding sub_topics_of
sub_topics_of-Subscribed [] topics = record {
  bare = λ e. refl;
  of_group = λ t g topic group h k. absurd (cc k);
  number = λ ne. absurd (ne refl);
}
sub_topics_of-Subscribed (x ∷ groups) topics = record {
  bare = λ e. absurd (cc e);
  of_group = topic_of_group (x ∷ groups) topics;
  number = λ ne. length-topics_of_groups (x ∷ groups) topics;
}
