-- ===== src/Api/Grant.antt =====
-- apis/v1beta1/referencegrant_types.go.
use gateway_api.Prelude.{String, Option, List}
use gateway_api.Api.Meta.{ObjectMeta}

pub record ReferenceGrantFrom : Type 0 where
  pub group : String
  pub kind : String
  pub namespace : String

pub record ReferenceGrantTo : Type 0 where
  pub group : String
  pub kind : String
  pub name : Option String

pub record ReferenceGrantSpec : Type 0 where
  pub from : List ReferenceGrantFrom
  pub to : List ReferenceGrantTo

pub record ReferenceGrant : Type 0 where
  pub metadata : ObjectMeta
  pub spec : ReferenceGrantSpec
