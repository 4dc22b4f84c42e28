-- ===== src/Lib.antt =====
-- The OpenStack cloud provider and its companions: what they decide and what they change.
--
-- Keystone (pkg/identity/keystone). A webhook that authorizes requests of Kubernetes by a list
-- of policies. `Keystone.Policy` has the types of policy.go and of the request attributes;
-- `Keystone.Find` is `findString`; `Keystone.Allowed` is `getAllowed` with
-- `resourcePermissionAllowed` and `nonResourcePermissionAllowed`; `Keystone.Match` is `match`,
-- `resourceMatches` and `nonResourceMatches`; `Keystone.Authorize` is `Authorize`.
-- `Keystone.Webhook` is `authorizeToken` of keystone.go, on decoded JSON.
-- `Keystone.Authenticate` is `AuthenticateToken` of authenticator.go and `Keystone.Handler` is
-- `Handler` of keystone.go, over a cluster and the answers of Keystone, the record `Identity`.
-- `Keystone.Controller` is the worker of keystone.go, which reads config maps; the work queue
-- and the lister of client-go are the record `Worker`, and what the theorem relies on is
-- `QueueLaws` of `Keystone.Controller.Rounds`. `Keystone.Sync` is sync.go: `Config` the
-- configuration and the names of namespaces, `Steps` the sync, against a `Cluster` of Kubernetes
-- calls whose behaviour is the record `Kubernetes`. A nil pointer that the code dereferences
-- gives `none`. A Go map is an association list, in the order in which the loop visits it.
--
-- OpenStack (pkg/cloudprovider/providers/openstack). `OpenStack.Servers` looks up servers, their
-- interfaces and their addresses (openstack.go, and `AddToNodeAddresses` of
-- pkg/apis/core/v1/helper/helpers.go). `OpenStack.Instances` is openstack_instances.go.
-- `OpenStack.Routes` is openstack_routes.go: `Unwind` has the `caller` helper with
-- `updateRoutes` and `updateAllowedAddressPairs`, `Ports` the lookup of ports, `Create`,
-- `Delete` and `Listing` the operations. The services are the record `Cloud` of `OpenStack.Api`:
-- each call takes the state of the services and gives a result and the new state. A pager is its
-- sequence of pages. What the routes rely on is the record `Neutron` of `OpenStack.Routes.Laws`.
-- `routes[index] = routes[len(routes)-1]` writes into the array of the router that was read, so
-- the model hands the router with the written routes to `updateRoutes`, whose unwinder keeps
-- them.
--
-- Load balancers. `OpenStack.Lbaas` is openstack_loadbalancer.go, with
-- pkg/api/v1/service/util.go. Its services are the record `Balancer` of `Lbaas.Api`, over the
-- same state of the cloud. An error is a `Fault`: a text of the program keeps its format up to
-- the first parameter, and the panic of `popMember` is one too. `Lbaas.Calls` has the record `Lbaas`, with the options that the methods
-- write to, and `Method`, a call that takes it and gives it back. `Lookup` finds load balancers,
-- listeners, pools, members and the floating network; `Wait` has the waits for a load balancer;
-- `Members`, `Listeners`, `Groups`, `FloatingIps`, `Subnets`, `Ranges` and `EnsureGroup` are the
-- parts of `EnsureLoadBalancer`, which `Plans` prepares and `Ensure` composes, with
-- `GetLoadBalancer`; `Update` is `UpdateLoadBalancer`, and `Remove` `EnsureLoadBalancerDeleted`.
-- What the theorems rely on is `MemberLaws` of `Lbaas.Members.Laws`, `PresenceLaws` of
-- `Lbaas.Remove.Laws`, which says when a load balancer is there, and `BackoffLaws` of
-- `Lbaas.Wait.Active`: `ExponentialBackoff` of package wait is a parameter, and is documented to
-- test its condition up to `Steps` times, which is 19 and 13 here.
--
-- Volumes. `OpenStack.Volumes` is openstack_volumes.go, with `volumeService` and
-- `GetNodeNameByID` of openstack.go and `RoundUpSize` of pkg/volume/util/util.go: attaching,
-- detaching, expanding, creating and deleting a volume of Cinder. `Volumes.Disks` has the
-- questions on lists of disks and on the paths of devices; a panic of a slice is `none`. The
-- services are the record `Cinder` of `Volumes.Api`, and what the theorem relies on is
-- `CinderLaws` of `Volumes.Laws`. `Volumes.Operations` has sequences of calls.
--
-- CSI driver (pkg/csi/cinder). `Csi.Cloud` is openstack/openstack_volumes.go with `IsNotFound`
-- of pkg/util/errors, `Csi.Snapshots` openstack/openstack_snapshots.go, and `Csi.Controller`
-- controllerserver.go. The services are the record `Services` of `Csi.Api`, which holds a
-- `Cinder`; what the theorems rely on is `ListingLaws` of `Csi.Controller.Again`, and
-- `CinderLaws`. `Csi.Node` is nodeserver.go with mount/mount.go and `GetDevicePath` of
-- pkg/util/metadata; its host is the record `Host`, of which the HTTP call of
-- openstack/openstack_metadata.go is a field, and what the theorem relies on is `MountLaws` of
-- `Csi.Node.Requests`. The answers of requests that are not implemented, the lists of
-- capabilities, and `ScanForAttach`, which nothing calls, are not modelled.
--
-- IpNets. `IpNets` is pkg/util/net/sets/ipnet.go, over the networks of Go's package net.
--
-- Validator. pkg/share/manila/shareoptions/validator: `Validator.Fields` has identity.go,
-- util.go and matchexpr.go, `Validator.Values` valueexpr.go, `Validator.Relations`
-- dependsexpr.go and precludesexpr.go, and `Validator.Populate` the constructor and `Populate`
-- of validator.go, with the struct as the list of its fields' values.
--
-- AesCbc. `AesCbc` is pkg/kms/encryption/aescbc/aescbc.go, over a cipher that is a parameter;
-- what it relies on is `CbcLaws`. A slice ends at its length: the capacity is not modelled.
--
-- Shared parts: `Maps` (Go maps as association lists with one entry for a key), `Base` (tests,
-- equality, lists, byte texts over the native numbers), `Sorting` (the sort and the binary
-- search of Go's sort package), `Strings` (functions of Go's packages strings and strconv),
-- `Sets` (the string sets of k8s.io/apimachinery, as an interface with one implementation),
-- `Exec` (calls with an error result, over outside state; `Post` and `Keeps` say what a call
-- leaves, `Panics` is for calls that may panic).
--
-- Not modelled: logging, metrics, locks (each operation runs alone under its mutex), the text of
-- errors, the HTTP clients, and the packages of Go and gophercloud that the code calls, which
-- are parameters: json.Unmarshal, wait.ExponentialBackoff, net.ParseIP, net.ParseCIDR,
-- mapstructure.Decode, regexp.
--
-- Every loop of the modelled code, the backoff of package wait and the worker of the webhook
-- aside, runs over a finite list and is structural recursion, so no fuel is used; the worker's
-- rounds are counted, with a bound that is proved. Bytes are natural numbers;
-- `byte(paddingSize)` keeps its wrap-around.
pub mod Base
pub mod Sorting
pub mod Strings
pub mod Sets
pub mod Maps
pub mod Exec
pub mod AesCbc
pub mod IpNets
pub mod Validator
pub mod Keystone
pub mod OpenStack
pub mod Csi
