-- ===== src/Lib.antt =====
-- gwctl, the command line tool of the Gateway API, and the conformance suite of the API.
--
-- gwctl reads Gateways, HTTPRoutes, backends, ReferenceGrants and policies from a cluster, links
-- them into a graph, and computes the policies that take effect on each node. Its core logic is in
-- gwctl/pkg/relations, gwctl/pkg/policymanager and gwctl/pkg/resourcediscovery.
--
-- Api: the structs of apis/v1, apis/v1beta1 and apis/v1alpha2 as gwctl reads them. A nil pointer is
-- `none`; a field that nothing reads is left out. `ObjRef` is that of gwctl/pkg/common/types.go.
-- Relations: gwctl/pkg/relations/relations.go, one function for each of its own.
-- Policy.Crd, Policy.Object, Policy.Manager: gwctl/pkg/policymanager/manager.go. `PolicyManager` is
-- a record of two maps. `add_policy` and `init` return the manager as they leave it, with the error
-- they return. `DynamicClient` is a parameter.
-- Policy.Merge: gwctl/pkg/policymanager/merger.go, and `EffectiveSpec` of manager.go.
-- Policy.Machinery: what these files call in apimachinery, encoding/json and json-patch. It is a
-- record that the definitions take as an argument. `Policy.Merge.Content.IsDocumented` names what
-- the merge relies on: a merge patch puts its leaves into the target and leaves the rest alone
-- (RFC 7396), `NestedFieldCopy` reads a path, and `GroupVersionKind` reads "apiVersion" and "kind"
-- alone. Tests.Machine has functions of which all this holds.
-- Discovery.Id, Discovery.Node, Discovery.Model, Discovery.Connect, Discovery.Attach,
-- Discovery.Effective: gwctl/pkg/resourcediscovery/nodes.go and resourcemodel.go. `ResourceModel`
-- is a record of maps from ids to nodes. A pointer from a node to another is the other's id, which
-- is looked up where the code follows the pointer; policies, which are complete when they are
-- linked, are held by value.
-- Discovery.Client, Discovery.Fetch, Discovery.Notes, Discovery.Expand, Discovery.Discoverer,
-- Discovery.Errors: gwctl/pkg/resourcediscovery/discoverer.go and errors.go. The clients of the
-- Kubernetes API, `K8sClients`, are a record of functions that the Discoverer holds; nothing is
-- assumed of them. Discovery.Proper: what holds of every node that the operations put into a model.
-- Discovery.Discoverer.Models composes the Discoverer with the resource model.
--
-- The conformance suite runs tests against an implementation and reports which features it supports;
-- a test waits for the status of resources and for responses. Its code is in conformance/utils.
--
-- Conformance.Features: pkg/features/features.go.
-- Conformance.Profiles, Conformance.Reports: conformance/utils/suite/profiles.go and reports.go,
-- and the report's structs of conformance/apis/v1. The counters of a report are 32 bits wide.
-- Conformance.Suite: conformance/utils/suite/suite.go and the `Run` of conformance.go. What the
-- body of a test comes to is a parameter. The global set of all features is passed on, since a
-- suite changes it. Conformance.Runs has the critical sections of `Run` as the steps of a relation,
-- so that calls from several goroutines may be interleaved. Conformance.Flags: the parsers of flags
-- in both files.
-- Conformance.Conditions, Conformance.Listeners, Conformance.Polls:
-- conformance/utils/kubernetes/helpers.go. A function of Polls is one attempt of a wait, given what
-- the client answers; the state that the closure keeps from one attempt to the next is passed on;
-- what `Get` makes of a slice that is held of the object it decodes into is a parameter.
-- Conformance.Await: `AwaitConvergence` of conformance/utils/http/http.go. What happens in each
-- round of the loop is an element of a list, which is its fuel. Conformance.Compare:
-- `CompareRequest` of the same file, with what it leaves in the structs that all attempts share,
-- the attempts of `WaitForConsistentResponse`, and the structs of
-- conformance/utils/roundtripper/roundtripper.go. An error is a constructor, without its text.
-- Prelude: maps, sets, sorting, the outcome of a call, the order of strings.
-- Tests: concrete inputs.
--
-- A Go map is an association list. A `range` loop goes through it in the list's order, and a
-- theorem that holds for every list of entries holds for every order in which Go may iterate. A
-- call that can fail has an `Outcome`: a value, an error, or a panic where a nil pointer is
-- followed or an index is out of range. `sort.Slice` is an insertion sort by the same key, which
-- differs from it at most in the order of elements with one key. Creation timestamps are numbers.
-- `strings.ToLower` is that of ASCII. Every loop is a recursion on the list that it goes through,
-- so no bound or fuel is needed, but for `AwaitConvergence`, whose rounds are enough as soon as the
-- timer fires in one of them. The counters of reports wrap round at 2 ^ 32; the generations and
-- ports of objects are natural numbers. The numbers in unstructured contents are those that a
-- float64 carries exactly, since merging decodes to float64; what it makes of other integers is not
-- modelled.
--
-- Not modelled: the printers and commands of gwctl, which are input and output; logging;
-- `MarshalJSON`; of the conformance suite the set-up of a cluster, the head of a
-- report, the waits for pods and namespaces, the clients that send requests, and the tests themselves; the
-- generated clients and the generators.
pub mod Prelude
pub mod Api
pub mod Relations
pub mod Policy
pub mod Discovery
pub mod Conformance
pub mod Tests
