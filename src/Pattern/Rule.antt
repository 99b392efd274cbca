-- ===== src/Pattern/Rule.antt =====
-- pkg/pattern/rule.go and pkg/pattern/action.go: a configured rule, and what it does to an image
-- that it matches.
pub mod Actions
pub mod Declared
use jitdi.Base.{
  ◌≡◌, Bool, true, false, Option, none, some, List, [], ◌∷◌, Bytes, codes, if◌then◌else◌, is_empty,
}
use jitdi.Config.{Platform, File, Ollama, Mutate, ImageSpec}
use jitdi.Pattern.Parse.{Segment, Parsed, ParseError, ok, err, parse_pattern}
use jitdi.Pattern.Params.{Params, insert, replace_with_params}
use jitdi.Pattern.Match.{match_segments}
use jitdi.Pattern.Less.{pattern_less}

pub record Rule : Type 0 where
  pub match : List Segment
  pub base_image : Bytes
  pub mutates : List Mutate
  pub platforms : List Platform

pub data Made : Type 0 where
  made : Rule → Made
  refused : ParseError → Made

rule_of : ImageSpec → Parsed → Made
rule_of conf (err e) = refused e
rule_of conf (ok segs) = made (record {
  match = segs;
  base_image = conf.base_image;
  mutates = conf.mutates;
  platforms = conf.platforms;
})

unfoldable pub new_rule : ImageSpec → Made
unfolding rule_of parse_pattern
new_rule conf = rule_of conf (parse_pattern conf.match)

pub record Action : Type 0 where
  pub params : Params
  pub match : Bytes
  pub rule : Rule

action_of : Rule → Bytes → Option Params × Bool → Option Action
action_of r image (some params, true) = some (record { params = params; match = image; rule = r })
action_of r image _ = none

unfoldable pub match_rule : Rule → Bytes → Option Action
unfolding action_of match_segments
match_rule r image = action_of r image (match_segments r.match image)

unfoldable pub less_than : Rule → Rule → Option Bool
unfolding pattern_less
less_than r o = pattern_less r.match o.match

abbrev pub get_match_image : Action → Bytes
get_match_image a = a.match

unfoldable pub get_base_image : Action → Bytes
unfolding replace_with_params
get_base_image a = replace_with_params a.rule.base_image a.params

-- `nil`, which is `none`, if the rule has no platforms.
unfoldable pub get_platforms : Action → Option (List Platform)
get_platforms a = if is_empty a.rule.platforms then none else some a.rule.platforms

unfoldable pub replace_mutate_with_params : List Mutate → Params → List Mutate
unfolding replace_with_params
replace_mutate_with_params [] params = []
replace_mutate_with_params (v ∷ m) params =
    let rest = replace_mutate_with_params m params in
    elim v.file [
      | some f ↦
          record {
            file = some (record {
              source = replace_with_params f.source params;
              destination = replace_with_params f.destination params;
              mode = f.mode;
            });
            ollama = none;
          }
          ∷ rest
      | none ↦ elim v.ollama [
        | some o ↦
            record {
              file = none;
              ollama = some (record {
                model = replace_with_params o.model params;
                model_name = replace_with_params o.model_name params;
                work_dir = replace_with_params o.work_dir params;
              });
            }
            ∷ rest
        | none ↦ rest
      ]
    ]

-- The parameters with the platform's two entries, which the code writes into the action's own map.
unfoldable pub platform_params : Option Platform → Params → Params
unfolding insert
platform_params none params =
    insert (codes "GOARCH") (codes "amd64") (insert (codes "GOOS") (codes "linux") params)
platform_params (some p) params =
    insert (codes "GOARCH") p.architecture (insert (codes "GOOS") p.os params)

unfoldable pub get_mutates : Action → Option Platform → Action × List Mutate
unfolding platform_params replace_mutate_with_params
get_mutates a p =
    let params = platform_params p a.params in
    (record a { params = params }, replace_mutate_with_params a.rule.mutates params)
