-- ===== src/Lib.antt =====
-- The Kubernetes operators for Hadoop under Apache/Hadoop/kubernetes/operator. Modelled is the
-- operator of hadoop-dev-qoder/hadoop-operator: the HadoopCluster resource, the controller that
-- reconciles it, and the objects that it writes; the same parts of the smaller operator of
-- hadoop-dev-trae/hadoop-operator; and the admission webhook of hadoop-dev-codebuddy/operator, which
-- defaults and validates another HadoopCluster resource. The three do not call each other.
--
-- A pass of a controller is a program in the sense of Effects.antt: a tree of calls to the API
-- server, the event recorder and the clock, each waiting for an answer. The server is a parameter of
-- the statements (Effects/Server.antt): any function from a call and a state to an
-- answer and a state. Assumptions on it stand among a statement's hypotheses as a predicate on
-- calls and their answers. A program is a finite tree, so each run ends without fuel; a run-time
-- panic (of resource.MustParse, or of the dereference of a nil pointer) is a constructor.
--
--   Effects.antt              programs; Effects/Behaviour.antt: what holds of every run, as an inductive
--                             family, and its rules; Effects/Server.antt: the calls and the end of a
--                             run against a server; Effects/Runs.antt: what is seen of its last state;
--                             Effects/Trace.antt: what is seen of its calls, in order
--   Checks.antt               checks on names and ports that the statements on shapes run
--   Kube.antt                 the fields of the Kubernetes API types that the code sets or reads
--   Qoder/Types.antt          api/v1/hadoopcluster_types.go
--   Qoder/Controller.antt     internal/reconciler/controller.go: Reconcile, ReconcileDelete
--   Qoder/Status.antt         the same file: IsClusterReady, UpdateClusterStatus
--   Qoder/Disruption.antt     the same file: ReconcilePDBs
--   Qoder/Config/*.antt       internal/reconciler/configmap.go: generateHadoopConfig and the
--                             functions that it calls, computeConfigHash
--   Qoder/ConfigMap.antt      the same file: ReconcileConfigMap
--   Qoder/Workload.antt       what the component reconcilers share
--   Qoder/NameNode.antt       internal/reconciler/namenode.go
--   Qoder/DataNode.antt       internal/reconciler/datanode.go
--   Qoder/ResourceManager.antt, Qoder/NodeManager.antt    internal/reconciler/yarn.go
--   Qoder/ZooKeeper.antt, Qoder/JournalNode.antt          internal/reconciler/ha.go
--   Qoder/Env.antt            the functions that the code calls and the repository does not hold:
--                             resource.MustParse, md5.Sum, the functions of controllerutil, the
--                             comparison by which its CreateOrUpdate spares an update, and the
--                             order in which Go iterates over a map
--   Qoder/Program.antt, Qoder/Behaviour.antt, Qoder/Server.antt    Effects for the calls of this
--                             operator; Qoder/Components.antt and Qoder/Reconcilers.antt apply the
--                             rules to the component reconcilers, Qoder/Controller/Pass.antt to a
--                             pass, for whatever assumption on the server
--   Qoder/Wanted.antt         what a cluster asks for, said apart from the reconcilers
--   Qoder/Controller/*.antt, Qoder/Wanted/*.antt, Qoder/Status/*.antt,
--   Qoder/Config/{Order,Printed}.antt, Qoder/Config/*/*.antt, Qoder/Shape.antt, Qoder/Shape/*.antt
--                             the statements; Qoder/Tests/*.antt uses each at sample values
--   Trae/Types.antt           hadoop-dev-trae/hadoop-operator/pkg/apis/hadoop/v1alpha1/hadoopcluster_types.go
--   Trae/Controller.antt, Trae/Program.antt       pkg/controller/hadoop/hadoopcluster_controller.go
--   Trae/NameNode.antt, Trae/NameNode/{Base,Claims,Options}.antt      pkg/resources/namenode.go
--   Trae/DataNode.antt, Trae/ResourceManager.antt, Trae/NodeManager.antt, Trae/ConfigMap.antt
--                             the files of pkg/resources of these names
--   Trae/Workload.antt, Trae/Affinity.antt        what those builders repeat
--   Trae/Api.antt             the Kubernetes API types that Kube.antt has in a smaller form
--   Trae/Env.antt             the library functions that the builders call, and the names that they
--                             use and the repository does not declare
--   Trae/Store.antt, Trae/Server.antt             the abstract view of the API server that a pass
--                             refines, and what the pass relies on; Trae/Memory.antt: a server that
--                             meets it
--   Trae/Controller/*.antt, Trae/Affinity/*.antt, Trae/NameNode/{Storage,Mounts}.antt,
--   Trae/Mounted.antt, Trae/Shape.antt            the statements; Trae/Tests/*.antt uses each
--   Codebuddy/*.antt          hadoop-dev-codebuddy/operator/pkg/apis/hadoop/v1: the fields of
--                             hadoopcluster_types.go that the webhook reads or sets, and Default
--                             and the validation of hadoopcluster_webhook.go, as functions
--
-- The name of a Go function becomes that of a definition in lower case with underscores:
-- ReconcileNameNodeService is reconcile_name_node_service. A function that does several things
-- in a row is cut where the code has a comment: Reconcile is initial_status, ensure_finalizer,
-- reconcile_delete or reconcile_live, which is start_creating, run_components and finish_pass.
--
-- Numbers: an int32 or int64 is an integer of Prelude/Int.antt, and the one subtraction of int32
-- (the dead DataNodes) wraps around. A text is a String, a map an association list, a pointer an
-- Option. The digits of a decimal number are cut off after twenty, more than an int64 has.
--
-- The operator of hadoop-dev-trae does not compile as it stands. It is modelled as it reads: what
-- it names and nothing declares is a parameter (Trae/Env.antt), and a variable that is declared
-- twice is taken as assigned.
--
-- Not modelled: logging, the registration of watches, the entry points and the generated deep
-- copies; and of hadoop-dev-codebuddy what is not the webhook.
pub mod Checks
pub mod Codebuddy
pub mod Effects
pub mod Kube
pub mod Prelude
pub mod Qoder
pub mod Trae
