-- ===== src/Pattern/Rule/Actions.antt =====
-- pkg/pattern/action.go: what an action gives to the builder.
use jitdi.Base.{◌≡◌, ◌≢◌, Option, none, some, List, [], ◌∷◌, Bytes, arith, All}
use jitdi.Config.{Platform, Mutate}
use jitdi.Pattern.Params.{Params, lookup, lookup-insert}
use jitdi.Pattern.Rule.{Action, get_mutates, replace_mutate_with_params, platform_params}

-- Exactly one of the two kinds is there.
abbrev pub HasOneKind : Mutate → Type 0
HasOneKind m = elim m.file [ none ↦ m.ollama ≢ none | some _ ↦ m.ollama ≡ none ]

replace_mutate_with_params-HasOneKind :
    (ms : List Mutate) (params : Params) → All HasOneKind (replace_mutate_with_params ms params)
unfolding replace_mutate_with_params
replace_mutate_with_params-HasOneKind [] params = tt
replace_mutate_with_params-HasOneKind (v ∷ ms) params =
    ground (arith, replace_mutate_with_params-HasOneKind ms params)

-- Every mutation that an action hands out is a file or an Ollama model, never both or neither.
pub get_mutates-HasOneKind : (a : Action) (p : Option Platform) → All HasOneKind (get_mutates a p).1
unfolding get_mutates
get_mutates-HasOneKind a p =
    replace_mutate_with_params-HasOneKind a.rule.mutates (platform_params p a.params)

-- After asking for the mutations of two platforms in turn, every parameter of the action has the value
-- that asking for the second alone would have left.
get_mutates_twice :
    (a : Action) (p q : Option Platform) (k : Bytes)
    → lookup k (get_mutates (get_mutates a p).0 q).0.params ≡ lookup k (get_mutates a q).0.params
unfolding get_mutates platform_params
get_mutates_twice a none none k = simp lookup-insert (ground arith)
get_mutates_twice a none (some q) k = simp lookup-insert (ground arith)
get_mutates_twice a (some p) none k = simp lookup-insert (ground arith)
get_mutates_twice a (some p) (some q) k = simp lookup-insert (ground arith)
