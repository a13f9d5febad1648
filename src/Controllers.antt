-- ===== src/Controllers.antt =====
-- internal/controllers/controller.go: the gRPC methods on the service, with the messages that they
-- take and give.
pub mod Verdicts
pub mod Writes
use authzcache.Base.{Bool, List, map, Option, none, some, Text, [], ◌∷◌}
use authzcache.Sdk.{Relation, Check, AuthzRelation, DescopeError, GoError}
use authzcache.Cel.{RequestContext}
use authzcache.Cache.{Externals}
use authzcache.Errors.{Failure, service_error_from_sdk_error}
use authzcache.Services.Backend.{Response, ok, error, panic, Backend}
use authzcache.Services.Projects.{
  Service, create_fga_schema, create_fga_relations, delete_fga_relations, check_method,
  who_can_access_method, what_can_target_access_method,
}

-- authzv1.Tuple
pub record Tuple : Type 0 where
  pub resource : Text
  pub resource_type : Text
  pub relation : Text
  pub target : Text
  pub target_type : Text

-- authzv1.CheckResponseInfo
pub record CheckResponseInfo : Type 0 where
  pub direct : Bool
  pub conditional : Bool
  pub missing_context : List Text
  pub conditional_err : Text

-- authzv1.CheckResponseTuple
pub record CheckResponseTuple : Type 0 where
  pub tuple : Tuple
  pub allowed : Bool
  pub info : CheckResponseInfo

-- authzv1.Relation
pub record ProtoRelation : Type 0 where
  pub resource : Text
  pub relation_definition : Text
  pub namespace : Text
  pub target : Text
  pub target_set_resource : Text
  pub target_set_relation_definition : Text
  pub target_set_relation_definition_namespace : Text

relation_from_tuple : Tuple → Relation
relation_from_tuple t = record {
  resource = t.resource;
  resource_type = t.resource_type;
  relation = t.relation;
  target = t.target;
  target_type = t.target_type;
}

-- `relationsFromTuples`
unfoldable pub relations_from_tuples : List Tuple → List Relation
unfolding relation_from_tuple
relations_from_tuples tuples = map relation_from_tuple tuples

tuple_of : Relation → Tuple
tuple_of r = record {
  resource = r.resource;
  resource_type = r.resource_type;
  relation = r.relation;
  target = r.target;
  target_type = r.target_type;
}

-- one turn of the loop over the checks
unfoldable pub response_tuple : Check → CheckResponseTuple
unfolding tuple_of
response_tuple check = record {
  tuple = tuple_of check.relation;
  allowed = check.allowed;
  info = record {
    direct = check.info.direct;
    conditional = check.info.conditional;
    missing_context = check.info.missing_context;
    conditional_err = check.info.conditional_err;
  };
}

-- `relationFromAuthzRelation`
unfoldable pub relation_from_authz_relation : AuthzRelation → ProtoRelation
relation_from_authz_relation r = record {
  resource = r.resource;
  relation_definition = r.relation_definition;
  namespace = r.namespace;
  target = r.target;
  target_set_resource = r.target_set_resource;
  target_set_relation_definition = r.target_set_relation_definition;
  target_set_relation_definition_namespace = r.target_set_relation_definition_namespace;
}

-- What a method of the controller does: it returns a message, or an error with the header that was
-- set, or panics.
pub data Reaction (A : Type 0) : Type 0 where
  returned : A → Reaction A
  refused : Failure → Reaction A
  crashed : Reaction A

-- What comes from the libraries: a protobuf struct with its `AsMap`, and the SDK's `Error()`.
pub record Messages (x : Externals) : Type 1 where
  pub Struct : Type 0
  pub as_map : Struct → RequestContext x.cel
  pub error_text : DescopeError → Text

module _ {x : Externals} (messages : Messages x) where
  -- a context that is missing is the nil map
  unfoldable pub extra_context : Option messages.Struct → RequestContext x.cel
  extra_context none = []
  extra_context (some fields) = messages.as_map fields

  -- an error of the service is converted, a result is put into the message
  unfoldable pub reaction : {A B : Type 0} → (A → B) → Response A → Reaction B
  reaction message (ok a) = returned (message a)
  reaction message (error e) = refused (service_error_from_sdk_error messages.error_text (some e))
  reaction message panic = crashed

  module _ (b : Backend x) where
    respond : {A B : Type 0} → (A → B) → Response A × Service b → Reaction B × Service b
    unfolding reaction
    respond message (response, s) = (reaction message response, s)

    -- `CreateFGASchema`
    pub save_schema : x.cel.Context → Text → Service b → Reaction (Unit {0}) × Service b
    unfolding respond
    save_schema ctx dsl s = respond (λ u. u) (create_fga_schema b ctx dsl s)

    -- `CreateFGARelations`
    pub create_tuples : x.cel.Context → List Tuple → Service b → Reaction (Unit {0}) × Service b
    unfolding respond relations_from_tuples
    create_tuples ctx tuples s =
        respond (λ u. u) (create_fga_relations b ctx (relations_from_tuples tuples) s)

    -- `DeleteFGARelations`
    pub delete_tuples : x.cel.Context → List Tuple → Service b → Reaction (Unit {0}) × Service b
    unfolding respond relations_from_tuples
    delete_tuples ctx tuples s =
        respond (λ u. u) (delete_fga_relations b ctx (relations_from_tuples tuples) s)

    -- `Check`
    pub check_tuples :
        x.cel.Context
        → List Tuple
        → Option messages.Struct
        → Service b
        → Reaction (List CheckResponseTuple) × Service b
    unfolding respond relations_from_tuples response_tuple extra_context
    check_tuples ctx tuples fields s =
        respond (map response_tuple)
          (check_method b ctx (relations_from_tuples tuples) (extra_context fields) s)

    -- `WhoCanAccess`
    pub list_targets :
        x.cel.Context
        → Text
        → Text
        → Text
        → Option messages.Struct
        → Service b
        → Reaction (List Text) × Service b
    unfolding respond extra_context
    list_targets ctx resource relation_definition namespace fields s =
        respond (λ targets. targets)
          (who_can_access_method b ctx resource relation_definition namespace (extra_context fields)
            s)

    -- `WhatCanTargetAccess`
    pub list_relations :
        x.cel.Context
        → Text
        → Option messages.Struct
        → Service b
        → Reaction (List ProtoRelation) × Service b
    unfolding respond extra_context relation_from_authz_relation
    list_relations ctx target fields s =
        respond (map relation_from_authz_relation)
          (what_can_target_access_method b ctx target (extra_context fields) s)
