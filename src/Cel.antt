-- ===== src/Cel.antt =====
-- internal/services/cel/cel.go: compiling the conditions of a schema and evaluating one on a
-- request. cel-go, protobuf and the backend's CEL types are not in the repository: `CelEngine` is
-- their interface.
use authzcache.Base.{
  ℕ, Bool, List, [], ◌∷◌, Option, none, some, Text, text_eq, is_empty, if◌then◌else◌, ◌>>=◌,
}
use authzcache.Base.Map.{Map, lookup, insert}
use authzcache.Sdk.{Condition, ConditionParam}

-- What `ContextEval` gives: an error (a timeout too), a Boolean, or another value.
pub data Outcome : Type 0 where
  failed : Outcome
  boolean : Bool → Outcome
  other : Outcome

pub record CelEngine : Type 1 where
  -- context.Context: deadline and cancellation
  pub Context : Type 0
  -- `any`, the values of a request context
  pub Value : Type 0
  -- a value after `descopecel.CoerceContextValue`
  pub Typed : Type 0
  pub CheckedExpr : Type 0
  pub Environment : Type 0
  pub Program : Type 0
  -- `cel.NewEnv(descopecel.EnvOptions()...)`
  pub new_env : Option Environment
  -- `proto.Unmarshal`
  pub unmarshal : Text → Option CheckedExpr
  -- `env.Program(cel.CheckedExprToAst(…))`
  pub program : Environment → CheckedExpr → Option Program
  pub coerce : Text → Value → Option Typed
  -- `ContextEval` under `context.WithTimeout`
  pub context_eval : Context → ℕ → Program → Map Text Typed → Outcome

module _ (cel : CelEngine) where
  open cel use {Context, Value, Typed, Program, new_env, unmarshal, program, coerce, context_eval}

  pub record CompiledCondition : Type 0 where
    pub name : Text
    pub program : Program
    pub params : List ConditionParam

  abbrev pub RequestContext : Type 0
  RequestContext = Map Text Value

  pub compile : Condition → Option CompiledCondition
  compile c = if is_empty c.checked_expr then none else do
    env ← new_env
    checked ← unmarshal c.checked_expr
    p ← program env checked
    some (record { name = c.name; program = p; params = c.params })

  -- the loop over the parameters: `none` is a missing or ill-typed one
  unfoldable pub bind_params :
      List ConditionParam → RequestContext → Map Text Typed → Option (Map Text Typed)
  bind_params [] request vars = some vars
  bind_params (p ∷ ps) request vars = do
    raw ← lookup p.name request
    v ← coerce p.kind raw
    bind_params ps request (insert p.name v vars)

  abbrev verdict : Outcome → Option Bool
  verdict failed = none
  verdict (boolean b) = some b
  verdict other = none

  -- `none` is Go's `ok == false`: the decision is left to the backend
  unfoldable pub eval : CompiledCondition → Context → RequestContext → ℕ → Option Bool
  eval cc ctx request timeout = do
    vars ← bind_params cc.params request []
    verdict (context_eval ctx timeout cc.program vars)
