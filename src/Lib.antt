-- ===== src/Lib.antt =====
-- The CoreDNS manager operator: a Kubernetes operator that keeps the zones of a CoreDNS server.
--
-- A DNSRecord is one line of a zone file, a DNSZone is a zone with its header, and a DNSConnector
-- ties zones to a CoreDNS workload. Three reconcilers share the API server and nothing else. The
-- DNSRecord reconciler turns a record into its line, has a zone parser judge it, and stores line
-- and judgement in the record's status. The DNSZone reconciler collects the good records of a zone,
-- writes the zone file into a config map, unless only the serial number has changed, and marks the
-- records. The DNSConnector reconciler writes a block for each zone into the Corefile, mounts the
-- zones' config maps into the workload, waits for its health, and marks the zones.
--
-- Files and what they are about:
--   Api          api/v1alpha1/*_types.go, and the Kubernetes types that the code uses
--   Zone         internal/controller/dnszone_construction.go (Construction), and of
--                internal/controller/dnszone_controller.go the comparison of zone config maps
--                (Compare), createOrUpdateZoneCM with the status updates (Update), and the
--                reconciler (Reconcile), with what it tells the records (Told), also beside a
--                zone file that is refused (Joined), and the statuses that it keeps (Honest) and the config map that it leaves on the API server
--                (Published), with its lines; the serial numbers as numbers (Serial)
--   Connector    internal/controller/dnsconnector_construction.go: generateCorefileCM (Corefile)
--                and setZoneFileConifgMaps (Volumes); of
--                internal/controller/dnsconnector_controller.go what it reads (Fetch), backup and
--                restoration of the Corefile (Backup), the health check (Health, Healthy), conditions and
--                notifications (Status), and the reconciler (Reconcile), with what it tells the
--                zones (Told)
--   Watch        the field indexes and the requests for watched objects of internal/controller;
--                events, predicates and controllers of controller-runtime (Events), the
--                controllers that the three SetupWithManager build (Setup), and which events they
--                answer (Requests)
--   Manager      cmd/main.go, with the calls of SetupWithManager
--   Copies       api/v1alpha1/zz_generated.deepcopy.go: a memory with the API objects as they lie
--                in it (Memory), pointers and slices (References), what is seen of an object
--                (Seen), and the methods (DeepCopyInto, DeepCopy, DeepCopyObject)
--   System       the steps of the three reconcilers and of the users on one API server, and the
--                states that they reach
--   Kube         the API server, the library helpers and the zone parser as records of operations,
--                with records of the laws that theorems suppose of them;
--                internal/controller/finalizers.go and obj_lookup.go (Finalizers); methods that
--                keep an invariant (Preserve) or have returned a result (Outcome); instances of the
--                interfaces in memory (Memory, Store)
--   Record       internal/controller/dnsrecord_construction.go and dnsrecord_controller.go
--   Errors       Go's error values and results
--   Common       texts, lists, maps, sorting, decimal numbers
--   Examples     the theorems at concrete inputs
--
-- A function of the source keeps its name in snake case, with DNS, CM and K8s as words.
--
-- How the code is modelled:
--   A string is a list of code points, and the functions of Go's package strings that the code
--   calls are defined on such lists. A map is an association list; the order in which a range
--   visits it is a parameter, of which theorems suppose that it visits each entry once. sort.Slice
--   by names is an insertion sort; theorems about it suppose distinct names. The output of the two
--   templates is written out. An error is its text with the API server's reason, which %v loses.
--   A method of a reconciler takes the state of the API server and returns a result and a new
--   state; what was written before an error stays written. Writes may fail. What a write means for
--   later reads is supposed only where a theorem says so, by IsStored, IsSeparate,
--   StoresRecordStatus, StoresZoneStatus, SeparatesStatus, ListsStored, StoresConfigMaps,
--   KeepsConfigMaps, KeepsOthers and KeepsOtherRecords. StoresConfigMaps is for a time at which no
--   config map is being deleted.
--   time.Sleep and wait.PollUntilContextTimeout are the record Waiting: while time passes, others
--   change the state of the API server. What a poll does is supposed by IsWaiting: it calls its
--   condition until the first yes or error, or until it times out behind a no. A reconciliation of a
--   record or a zone is one step of the system; while a connector's reconciliation waits, steps of
--   the others come between, and outside of the waits it is not interrupted.
--   equality.Semantic.DeepEqual at maps of texts is a parameter that holds exactly of maps with the
--   same values. The CRDs require the pointers of the specs, so these are plain fields, and a pod
--   template has at least one container.
--   The loop of validateRecords has fuel, which the source has not: one more than the number of
--   records that the parser still returns at most. It is enough for a parser that comes to the end
--   of its text. All other loops run over a finite list.
--
--   The reconcilers pass API objects as values. That the deep copies of the code are as good is the
--   matter of Copies: there pointers and slices are addresses in a memory, and a pointer to an
--   object stands for its struct. A slice starts at the first element of its array. The metadata
--   of an object has a pointer to the time of the deletion, maps and slices, of the fields that the
--   code uses; that apimachinery's DeepCopyInto copies it deeply is supposed by IsCopying.
--   The manager of controller-runtime, its builder and its predicates are parameters; what is
--   supposed of them is IsPredicates, Delivery and Remembers.
--
-- Not modelled: logging; the flag parser, the signal handler and the schemes, with
-- api/v1alpha1/groupversion_info.go; the delay before a request.
pub mod Common
pub mod Errors
pub mod Api
pub mod Zone
pub mod Connector
pub mod Kube
pub mod Record
pub mod System
pub mod Watch
pub mod Copies
pub mod Manager
pub mod Examples
