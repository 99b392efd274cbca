-- ===== src/Pattern/Tests.antt =====
-- pkg/pattern: runs of the definitions, those of pattern_test.go among them, and instances of the theorems.
use jitdi.Base.{◌≡◌, ◌≢◌, ◌↔◌, refl, true, false, none, some, List, [], ◌∷◌, arith, codes, All}
use Prim.Native.String.{String}
use jitdi.Config.{Platform, Mutate}
use jitdi.Pattern.Parse.{
  Segment, literal, wildcard, ok, err, unmatched_brace, empty_braces, out_of_fuel, parse_segments,
  parse_pattern,
}
use jitdi.Pattern.Parse.Shape.{render, IsWellFormed}
use jitdi.Pattern.Parse.Render.{parse_segments_iff}
use jitdi.Pattern.Parse.Total.{parse_segments-ne-fuel}
use jitdi.Pattern.Params.{Params, replace_with_params}
use jitdi.Pattern.Params.Fill.{fill, replace_with_params-render}
use jitdi.Pattern.Match.{match_segments}
use jitdi.Pattern.Match.Leftmost.{Leftmost, assign, match_segments_iff}
use jitdi.Pattern.Less.{pattern_less}
use jitdi.Pattern.Less.Laws.{pattern_less_asym, pattern_less_negtrans}
use jitdi.Pattern.Rule.{Action, get_mutates}
use jitdi.Pattern.Rule.Actions.{HasOneKind, get_mutates-HasOneKind}

abbrev lit : String → Segment
lit s = literal (codes s)

abbrev par : String → Segment
par s = wildcard (codes s)

abbrev any_repo : List Segment
any_repo = lit "any-" ∷ par "repo" ∷ lit "-any/any-" ∷ par "name" ∷ lit "-any" ∷ []

parses_any_repo : parse_segments (codes "any-{repo}-any/any-{name}-any") ≡ ok any_repo
unfolding parse_segments
parses_any_repo = refl

refuses :
    (parse_segments (codes "a{b") ≡ err unmatched_brace)
    × (parse_segments (codes "a{}") ≡ err empty_braces)
unfolding parse_segments
refuses = (refl, refl)

adds_latest : parse_pattern (codes "{image}") ≡ ok (par "image" ∷ lit ":latest" ∷ [])
unfolding parse_pattern
adds_latest = refl

matches_pre_post :
    match_segments (par "pre" ∷ lit "-any-" ∷ par "post" ∷ []) (codes "pre-any-post")
    ≡ (some ((codes "pre", codes "pre") ∷ (codes "post", codes "post") ∷ []), true)
unfolding match_segments
matches_pre_post = refl

rejects_longer : match_segments (lit "name" ∷ []) (codes "name1") ≡ (some [], false)
unfolding match_segments
rejects_longer = refl

-- The first occurrence of a literal decides, with no way back.
no_way_back :
    match_segments (par "a" ∷ lit "-x" ∷ []) (codes "b-x-x")
    ≡ (some ((codes "a", codes "b") ∷ []), false)
unfolding match_segments
no_way_back = refl

fills_source :
    replace_with_params
      (codes "/bin/{file}")
      ((codes "tag", codes "v1") ∷ (codes "file", codes "kubectl") ∷ [])
    ≡ codes "/bin/kubectl"
unfolding replace_with_params
fills_source = refl

abbrev short_tag : List Segment
short_tag = lit "alpine:3" ∷ []

abbrev latest_tag : List Segment
latest_tag = lit "alpine:latest" ∷ []

abbrev any_tag : List Segment
any_tag = lit "alpine:" ∷ par "tag" ∷ []

orders_alpine :
    (pattern_less latest_tag short_tag ≡ some true) × (pattern_less short_tag any_tag ≡ some true)
unfolding pattern_less
orders_alpine = (refl, refl)

parse_segments_iff_example :
    (parse_segments (codes "a{b}") ≡ ok (lit "a" ∷ par "b" ∷ []))
    ↔ (IsWellFormed (lit "a" ∷ par "b" ∷ []) × (render (lit "a" ∷ par "b" ∷ []) ≡ codes "a{b}"))
parse_segments_iff_example = parse_segments_iff (codes "a{b}") (lit "a" ∷ par "b" ∷ [])

parse_segments-ne-fuel_example : parse_segments (codes "a{b}c") ≢ err out_of_fuel
parse_segments-ne-fuel_example = parse_segments-ne-fuel (codes "a{b}c")

match_segments_iff_example :
    (match_segments (par "a" ∷ lit ":1" ∷ []) (codes "x:1")
      ≡ (some ((codes "a", codes "x") ∷ []), true))
    ↔ ((bs : Params) × Leftmost (par "a" ∷ lit ":1" ∷ []) (codes "x:1") bs
        × (((codes "a", codes "x") ∷ []) ≡ assign [] bs))
match_segments_iff_example =
    match_segments_iff (par "a" ∷ lit ":1" ∷ []) (codes "x:1") ((codes "a", codes "x") ∷ [])

abbrev file_param : Params
file_param = (codes "file", codes "kubectl") ∷ (codes "tag", codes "v1") ∷ []

replace_with_params-render_example :
    replace_with_params (render (lit "/bin/" ∷ par "file" ∷ [])) file_param
    ≡ fill file_param (lit "/bin/" ∷ par "file" ∷ [])
replace_with_params-render_example =
    replace_with_params-render file_param (lit "/bin/" ∷ par "file" ∷ []) (omega arith)
      (omega arith)

pattern_less_asym_example : pattern_less short_tag latest_tag ≡ some false
pattern_less_asym_example = pattern_less_asym latest_tag short_tag orders_alpine.0

tag_not_before_short : pattern_less any_tag short_tag ≡ some false
unfolding pattern_less
tag_not_before_short = refl

short_not_before_latest : pattern_less short_tag latest_tag ≡ some false
unfolding pattern_less
short_not_before_latest = refl

pattern_less_negtrans_example : pattern_less any_tag latest_tag ≡ some false
pattern_less_negtrans_example =
    pattern_less_negtrans any_tag short_tag latest_tag (ground arith) (ground arith) (ground arith)
      tag_not_before_short short_not_before_latest

abbrev kubectl_file : Mutate
kubectl_file = record {
  file = some (record {
    source = codes "{GOOS}/{file}";
    destination = codes "/bin/{file}";
    mode = codes "";
  });
  ollama = none;
}

abbrev nothing : Mutate
nothing = record { file = none; ollama = none }

abbrev kubectl_action : Action
kubectl_action = record {
  params = file_param;
  match = codes "k8s/kubectl:v1";
  rule = record {
    match = [];
    base_image = codes "alpine";
    mutates = kubectl_file ∷ nothing ∷ [];
    platforms = [];
  };
}

abbrev arm : Platform
arm = record { architecture = codes "arm64"; os = codes "linux"; variant = [] }

get_mutates-HasOneKind_example : All HasOneKind (get_mutates kubectl_action (some arm)).1
get_mutates-HasOneKind_example = get_mutates-HasOneKind kubectl_action (some arm)
