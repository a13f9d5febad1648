-- ===== src/Sdk.antt =====
-- The data that the program exchanges with the Descope SDK (github.com/descope/go-sdk), which is
-- not in the repository: the structs by the fields that the program reads or writes. `Info` is a
-- pointer in Go and is never nil in a response of the SDK.
use authzcache.Base.{ℕ, Bool, false, List, [], Option, Text}
use authzcache.Base.Int.{ℤ}

-- descope.FGARelation
pub record Relation : Type 0 where
  pub resource : Text
  pub resource_type : Text
  pub relation : Text
  pub target : Text
  pub target_type : Text

-- descope.FGACheckInfo
pub record CheckInfo : Type 0 where
  pub direct : Bool
  pub conditional : Bool
  pub fact_used : Bool
  pub schema_version : Text
  pub true_conditions : List ℕ
  pub false_conditions : List ℕ
  pub missing_context : List Text
  pub conditional_err : Text

-- A `FGACheckInfo` literal sets some fields; the others are zero.
abbrev pub no_info : CheckInfo
no_info = record {
  direct = false;
  conditional = false;
  fact_used = false;
  schema_version = [];
  true_conditions = [];
  false_conditions = [];
  missing_context = [];
  conditional_err = [];
}

-- descope.FGACheck
pub record Check : Type 0 where
  pub allowed : Bool
  pub relation : Relation
  pub info : CheckInfo

-- descope.FGAConditionParam
pub record ConditionParam : Type 0 where
  pub name : Text
  pub kind : Text

-- descope.FGACondition. An int32 id is only compared, and stands as its bit pattern.
pub record Condition : Type 0 where
  pub id : ℕ
  pub name : Text
  pub checked_expr : Text
  pub params : List ConditionParam

-- descope.FGASchema
pub record Schema : Type 0 where
  pub dsl : Text
  pub version : Text
  pub conditions : List Condition

-- descope.AuthzModified
pub record Modified : Type 0 where
  pub resources : List Text
  pub targets : List Text
  pub schema_changed : Bool

-- descope.AuthzRelation
pub record AuthzRelation : Type 0 where
  pub resource : Text
  pub relation_definition : Text
  pub namespace : Text
  pub target : Text
  pub target_set_resource : Text
  pub target_set_relation_definition : Text
  pub target_set_relation_definition_namespace : Text

-- descope.Error, with the two entries of `Info` that the program reads.
pub record DescopeError : Type 0 where
  pub code : Text
  pub description : Text
  pub message : Text
  -- `Info[HTTPResponseStatusCode]`, if it is an int
  pub status : Option ℤ
  -- `Info[RateLimitExceededRetryAfter]`, if it is an int
  pub retry_after : Option ℤ

-- A Go `error` that is not nil: the SDK's, or any other by its text.
pub data GoError : Type 0 where
  descope_error : DescopeError → GoError
  other_error : Text → GoError
