-- ===== src/Discovery/Errors.antt =====
-- gwctl/pkg/resourcediscovery/errors.go: what the Discoverer notes at a node about its references.
use gateway_api.Prelude.{String, ◌⧺◌, ◌≐◌, string_key, if◌then◌else◌}
use gateway_api.Api.Meta.{ObjRef}

pub record ReferenceFromTo : Type 0 where
  pub referring_object : ObjRef
  pub referred_object : ObjRef

pub data NodeError : Type 0 where
  -- `ReferenceToNonExistentResourceError`
  reference_to_non_existent_resource : ReferenceFromTo → NodeError
  -- `ReferenceNotPermittedError`
  reference_not_permitted : ReferenceFromTo → NodeError

-- A human readable kind, with the group if there is one.
unfoldable pub readable_kind : ObjRef → String
readable_kind o = if o.group ≐ "" then o.kind else o.kind ⧺ ("(." ⧺ (o.group ⧺ ")"))

-- A human readable name, with the namespace if there is one.
unfoldable pub readable_name : ObjRef → String
readable_name o = if o.namespace ≐ "" then o.name else o.namespace ⧺ ("/" ⧺ o.name)

-- The `Error` methods. `quote` is the verb %q of package fmt.
unfoldable pub message : (quote : String → String) → NodeError → String
unfolding readable_kind readable_name
message quote (reference_to_non_existent_resource r) =
    readable_kind r.referring_object
    ⧺ (" "
        ⧺ (quote (readable_name r.referring_object)
            ⧺ (" references a non-existent "
                ⧺ (readable_kind r.referred_object
                    ⧺ (" " ⧺ quote (readable_name r.referred_object))))))
message quote (reference_not_permitted r) =
    readable_kind r.referring_object
    ⧺ (" "
        ⧺ (quote (readable_name r.referring_object)
            ⧺ (" is not permitted to reference "
                ⧺ (readable_kind r.referred_object
                    ⧺ (" " ⧺ quote (readable_name r.referred_object))))))
