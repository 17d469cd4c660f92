-- ===== src/Qoder/Config/Sites.antt =====
-- internal/reconciler/configmap.go: the properties of each site file before they are printed.
pub mod Overrides
pub mod Addresses
use work_script.Prelude.{String, [], ◌∷◌, Dict, insert, merge, concat, if◌then◌else◌}
use work_script.Qoder.Types.{HadoopCluster}
use work_script.Qoder.Config.Names.{
  is_nn_ha, is_rm_ha, pod_address, nn_service, rm_service, get_zoo_keeper_quorum,
}

core_base : HadoopCluster → Dict String
core_base cluster =
    ("hadoop.tmp.dir", "/opt/hadoop/tmpdata")
    ∷ ("fs.defaultFS", concat ("hdfs://" ∷ nn_service cluster ∷ ":9000" ∷ []))
    ∷ ("hadoop.proxyuser.hadoop.hosts", "*")
    ∷ ("hadoop.proxyuser.hadoop.groups", "*")
    ∷ ("hadoop.proxyuser.hue.hosts", "*")
    ∷ ("hadoop.proxyuser.hue.groups", "*")
    ∷ ("hadoop.proxyuser.hive.hosts", "*")
    ∷ ("hadoop.proxyuser.hive.groups", "*")
    ∷ ("hadoop.proxyuser.root.hosts", "*")
    ∷ ("hadoop.proxyuser.root.groups", "*")
    ∷ []

core_ha : HadoopCluster → Dict String → Dict String
core_ha cluster site =
    insert "ha.zookeeper.quorum" (get_zoo_keeper_quorum cluster)
      (insert "fs.defaultFS" (concat ("hdfs://" ∷ cluster.name ∷ [])) site)

unfoldable pub core_site : HadoopCluster → Dict String
unfolding core_base core_ha
core_site cluster =
    let base = core_base cluster in
    merge cluster.spec.config.core_site (if is_nn_ha cluster then core_ha cluster base else base)

hdfs_base : HadoopCluster → Dict String
hdfs_base cluster =
    ("dfs.namenode.name.dir", "/opt/hadoop/data/nn")
    ∷ ("dfs.datanode.data.dir", "/opt/hadoop/data/dn")
    ∷ ("dfs.namenode.rpc-address", concat (nn_service cluster ∷ ":9000" ∷ []))
    ∷ ("dfs.namenode.rpc-bind-host", "0.0.0.0")
    ∷ ("dfs.namenode.http-bind-host", "0.0.0.0")
    ∷ ("dfs.replication", "3")
    ∷ ("dfs.client.use.datanode.hostname", "true")
    ∷ ("dfs.permissions.enabled", "false")
    ∷ ("dfs.webhdfs.enabled", "true")
    ∷ ("dfs.namenode.datanode.registration.ip-hostname-check", "false")
    ∷ []

hdfs_ha : HadoopCluster → Dict String → Dict String
hdfs_ha cluster site =
    let s1 = insert "dfs.nameservices" cluster.name site in
    let s2 = insert (concat ("dfs.ha.namenodes." ∷ cluster.name ∷ [])) "nn1,nn2" s1 in
    let s3 =
      insert (concat ("dfs.namenode.rpc-address." ∷ cluster.name ∷ ".nn1" ∷ []))
        (pod_address cluster "namenode" "0" ":9000") s2 in
    let s4 =
      insert (concat ("dfs.namenode.rpc-address." ∷ cluster.name ∷ ".nn2" ∷ []))
        (pod_address cluster "namenode" "1" ":9000") s3 in
    let s5 =
      insert (concat ("dfs.namenode.http-address." ∷ cluster.name ∷ ".nn1" ∷ []))
        (pod_address cluster "namenode" "0" ":9870") s4 in
    let s6 =
      insert (concat ("dfs.namenode.http-address." ∷ cluster.name ∷ ".nn2" ∷ []))
        (pod_address cluster "namenode" "1" ":9870") s5 in
    let s7 =
      insert (concat ("dfs.client.failover.proxy.provider." ∷ cluster.name ∷ []))
        "org.apache.hadoop.hdfs.server.namenode.ha.ConfiguredFailoverProxyProvider" s6 in
    let s8 = insert "dfs.ha.fencing.methods" "shell(/bin/true)" s7 in
    insert "dfs.ha.automatic-failover.enabled" "true" s8

unfoldable pub hdfs_site : HadoopCluster → Dict String
unfolding hdfs_base hdfs_ha
hdfs_site cluster =
    let base = hdfs_base cluster in
    merge cluster.spec.config.hdfs_site (if is_nn_ha cluster then hdfs_ha cluster base else base)

yarn_base : HadoopCluster → Dict String
yarn_base cluster =
    ("yarn.resourcemanager.hostname", rm_service cluster)
    ∷ ("yarn.resourcemanager.bind-host", "0.0.0.0")
    ∷ ("yarn.resourcemanager.webapp.address", "0.0.0.0:8088")
    ∷ ("yarn.nodemanager.bind-host", "0.0.0.0")
    ∷ ("yarn.nodemanager.pmem-check-enabled", "false")
    ∷ ("yarn.nodemanager.delete.debug-delay-sec", "600")
    ∷ ("yarn.nodemanager.vmem-check-enabled", "false")
    ∷ ("yarn.nodemanager.aux-services", "mapreduce_shuffle")
    ∷ (
      "yarn.nodemanager.aux-services.mapreduce_shuffle.class",
      "org.apache.hadoop.mapred.ShuffleHandler",
    )
    ∷ ("yarn.acl.enable", "false")
    ∷ (
      "yarn.nodemanager.env-whitelist",
      "JAVA_HOME,HADOOP_COMMON_HOME,HADOOP_HDFS_HOME,HADOOP_CONF_DIR,CLASSPATH_PREPEND_DISTCACHE,HADOOP_YARN_HOME,HADOOP_HOME,PATH,LANG,TZ,HADOOP_MAPRED_HOME",
    )
    ∷ []

yarn_ha : HadoopCluster → Dict String → Dict String
yarn_ha cluster site =
    let s1 = insert "yarn.resourcemanager.ha.enabled" "true" site in
    let s2 = insert "yarn.resourcemanager.cluster-id" (concat (cluster.name ∷ "-rm" ∷ [])) s1 in
    let s3 = insert "yarn.resourcemanager.ha.rm-ids" "rm1,rm2" s2 in
    let s4 =
      insert "yarn.resourcemanager.hostname.rm1" (pod_address cluster "resourcemanager" "0" "")
        s3 in
    let s5 =
      insert "yarn.resourcemanager.hostname.rm2" (pod_address cluster "resourcemanager" "1" "")
        s4 in
    let s6 =
      insert "yarn.resourcemanager.webapp.address.rm1"
        (pod_address cluster "resourcemanager" "0" ":8088") s5 in
    let s7 =
      insert "yarn.resourcemanager.webapp.address.rm2"
        (pod_address cluster "resourcemanager" "1" ":8088") s6 in
    insert "yarn.resourcemanager.zk-address" (get_zoo_keeper_quorum cluster) s7

unfoldable pub yarn_site : HadoopCluster → Dict String
unfolding yarn_base yarn_ha
yarn_site cluster =
    let base = yarn_base cluster in
    merge cluster.spec.config.yarn_site (if is_rm_ha cluster then yarn_ha cluster base else base)

abbrev pub mapred_base : Dict String
mapred_base =
    ("mapreduce.framework.name", "yarn")
    ∷ ("yarn.app.mapreduce.am.env", "HADOOP_MAPRED_HOME=/opt/hadoop")
    ∷ ("mapreduce.map.env", "HADOOP_MAPRED_HOME=/opt/hadoop")
    ∷ ("mapreduce.reduce.env", "HADOOP_MAPRED_HOME=/opt/hadoop")
    ∷ []

unfoldable pub mapred_site : HadoopCluster → Dict String
mapred_site cluster = merge cluster.spec.config.mapred_site mapred_base

abbrev scheduler_base : Dict String
scheduler_base =
    ("yarn.scheduler.capacity.maximum-applications", "10000")
    ∷ ("yarn.scheduler.capacity.maximum-am-resource-percent", "0.1")
    ∷ (
      "yarn.scheduler.capacity.resource-calculator",
      "org.apache.hadoop.yarn.util.resource.DefaultResourceCalculator",
    )
    ∷ ("yarn.scheduler.capacity.root.queues", "default")
    ∷ ("yarn.scheduler.capacity.root.default.capacity", "100")
    ∷ ("yarn.scheduler.capacity.root.default.user-limit-factor", "1")
    ∷ ("yarn.scheduler.capacity.root.default.maximum-capacity", "100")
    ∷ ("yarn.scheduler.capacity.root.default.state", "RUNNING")
    ∷ ("yarn.scheduler.capacity.root.default.acl_submit_applications", "*")
    ∷ ("yarn.scheduler.capacity.root.default.acl_administer_queue", "*")
    ∷ ("yarn.scheduler.capacity.node-locality-delay", "40")
    ∷ ("yarn.scheduler.capacity.root.default.acl_application_max_priority", "*")
    ∷ ("yarn.scheduler.capacity.root.default.maximum-application-lifetime", "-1")
    ∷ ("yarn.scheduler.capacity.rack-locality-additional-delay", "-1")
    ∷ []

unfoldable pub capacity_scheduler : HadoopCluster → Dict String
capacity_scheduler cluster = merge cluster.spec.config.capacity_scheduler scheduler_base
