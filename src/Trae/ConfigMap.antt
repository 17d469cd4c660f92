-- ===== src/Trae/ConfigMap.antt =====
-- pkg/resources/configmap.go: the ConfigMap with the five configuration files.
use work_script.Prelude.{String, [], ◌∷◌, concat}
use work_script.Kube.{ConfigMap}
use work_script.Trae.Types.{HadoopCluster}
use work_script.Trae.Env.{Env}

unfoldable pub generate_core_site_xml : HadoopCluster → String
generate_core_site_xml cluster = concat (
    "<?xml version=\"1.0\"?>\n" ∷ "<configuration>\n" ∷ "  <property>\n"
    ∷ "    <name>hadoop.tmp.dir</name>\n" ∷ "    <value>/opt/hadoop/tmpdata</value>\n"
    ∷ "  </property>\n" ∷ "  <property>\n" ∷ "    <name>fs.defaultFS</name>\n"
    ∷ "    <value>hdfs://" ∷ cluster.name ∷ "-namenode-0." ∷ cluster.name ∷ "-namenode."
    ∷ cluster.namespace ∷ ".svc.cluster.local:9000</value>\n" ∷ "  </property>\n" ∷ "  <property>\n"
    ∷ "    <name>hadoop.proxyuser.hadoop.hosts</name>\n" ∷ "    <value>*</value>\n"
    ∷ "  </property>\n" ∷ "  <property>\n" ∷ "    <name>hadoop.proxyuser.hadoop.groups</name>\n"
    ∷ "    <value>*</value>\n" ∷ "  </property>\n" ∷ "  <property>\n"
    ∷ "    <name>hadoop.proxyuser.hue.hosts</name>\n" ∷ "    <value>*</value>\n" ∷ "  </property>\n"
    ∷ "  <property>\n" ∷ "    <name>hadoop.proxyuser.hue.groups</name>\n" ∷ "    <value>*</value>\n"
    ∷ "  </property>\n" ∷ "  <property>\n" ∷ "    <name>hadoop.proxyuser.hive.hosts</name>\n"
    ∷ "    <value>*</value>\n" ∷ "  </property>\n" ∷ "  <property>\n"
    ∷ "    <name>hadoop.proxyuser.hive.groups</name>\n" ∷ "    <value>*</value>\n"
    ∷ "  </property>\n" ∷ "  <property>\n" ∷ "    <name>hadoop.proxyuser.root.hosts</name>\n"
    ∷ "    <value>*</value>\n" ∷ "  </property>\n" ∷ "  <property>\n"
    ∷ "    <name>hadoop.proxyuser.root.groups</name>\n" ∷ "    <value>*</value>\n"
    ∷ "  </property>\n" ∷ "</configuration>" ∷ [])

unfoldable pub generate_hdf_site_xml : HadoopCluster → String
generate_hdf_site_xml cluster = concat (
    "<?xml version=\"1.0\"?>\n" ∷ "<configuration>\n" ∷ "  <property>\n"
    ∷ "    <name>dfs.namenode.name.dir</name>\n" ∷ "    <value>/opt/hadoop/data/nn</value>\n"
    ∷ "  </property>\n" ∷ "  <property>\n" ∷ "    <name>dfs.datanode.data.dir</name>\n"
    ∷ "    <value>/opt/hadoop/data/dn</value>\n" ∷ "  </property>\n" ∷ "  <property>\n"
    ∷ "    <name>dfs.namenode.rpc-address</name>\n" ∷ "    <value>" ∷ cluster.name ∷ "-namenode-0."
    ∷ cluster.name ∷ "-namenode." ∷ cluster.namespace ∷ ".svc.cluster.local:9000</value>\n"
    ∷ "  </property>\n" ∷ "  <property>\n" ∷ "    <name>dfs.namenode.rpc-bind-host</name>\n"
    ∷ "    <value>0.0.0.0</value>\n" ∷ "  </property>\n" ∷ "  <property>\n"
    ∷ "    <name>dfs.namenode.http-bind-host</name>\n" ∷ "    <value>0.0.0.0</value>\n"
    ∷ "  </property>\n" ∷ "  <property>\n" ∷ "    <name>dfs.replication</name>\n"
    ∷ "    <value>1</value>\n" ∷ "  </property>\n" ∷ "  <property>\n"
    ∷ "    <name>dfs.client.use.datanode.hostname</name>\n" ∷ "    <value>true</value>\n"
    ∷ "  </property>\n" ∷ "  <property>\n" ∷ "    <name>dfs.permissions.enabled</name>\n"
    ∷ "    <value>false</value>\n" ∷ "  </property>\n" ∷ "  <property>\n"
    ∷ "    <name>dfs.webhdfs.enabled</name>\n" ∷ "    <value>true</value>\n" ∷ "  </property>\n"
    ∷ "  <property>\n" ∷ "    <name>dfs.namenode.datanode.registration.ip-hostname-check</name>\n"
    ∷ "    <value>false</value>\n" ∷ "  </property>\n" ∷ "</configuration>" ∷ [])

unfoldable pub generate_yarn_site_xml : HadoopCluster → String
generate_yarn_site_xml cluster = concat (
    "<?xml version=\"1.0\"?>\n" ∷ "<configuration>\n" ∷ "  <property>\n"
    ∷ "    <name>yarn.resourcemanager.hostname</name>\n" ∷ "    <value>" ∷ cluster.name
    ∷ "-resourcemanager-0." ∷ cluster.name ∷ "-resourcemanager." ∷ cluster.namespace
    ∷ ".svc.cluster.local</value>\n" ∷ "  </property>\n" ∷ "  <property>\n"
    ∷ "    <name>yarn.resourcemanager.bind-host</name>\n" ∷ "    <value>0.0.0.0</value>\n"
    ∷ "  </property>\n" ∷ "  <property>\n"
    ∷ "    <name>yarn.resourcemanager.webapp.address</name>\n" ∷ "    <value>0.0.0.0:8088</value>\n"
    ∷ "  </property>\n" ∷ "  <property>\n" ∷ "    <name>yarn.nodemanager.bind-host</name>\n"
    ∷ "    <value>0.0.0.0</value>\n" ∷ "  </property>\n" ∷ "  <property>\n"
    ∷ "    <name>yarn.nodemanager.pmem-check-enabled</name>\n" ∷ "    <value>false</value>\n"
    ∷ "  </property>\n" ∷ "  <property>\n"
    ∷ "    <name>yarn.nodemanager.delete.debug-delay-sec</name>\n" ∷ "    <value>600</value>\n"
    ∷ "  </property>\n" ∷ "  <property>\n"
    ∷ "    <name>yarn.nodemanager.vmem-check-enabled</name>\n" ∷ "    <value>false</value>\n"
    ∷ "  </property>\n" ∷ "  <property>\n" ∷ "    <name>yarn.nodemanager.aux-services</name>\n"
    ∷ "    <value>mapreduce_shuffle</value>\n" ∷ "  </property>\n" ∷ "  <property>\n"
    ∷ "    <name>yarn.nodemanager.aux-services.mapreduce_shuffle.class</name>\n"
    ∷ "    <value>org.apache.hadoop.mapred.ShuffleHandler</value>\n" ∷ "  </property>\n"
    ∷ "  <property>\n" ∷ "    <name>yarn.acl.enable</name>\n" ∷ "    <value>false</value>\n"
    ∷ "  </property>\n" ∷ "  <property>\n" ∷ "    <name>yarn.nodemanager.env-whitelist</name>\n"
    ∷ "    <value>JAVA_HOME,HADOOP_COMMON_HOME,HADOOP_HDFS_HOME,HADOOP_CONF_DIR,CLASSPATH_PREPEND_DISTCACHE,HADOOP_YARN_HOME,HADOOP_HOME,PATH,LANG,TZ,HADOOP_MAPRED_HOME</value>\n"
    ∷ "  </property>\n" ∷ "</configuration>" ∷ [])

unfoldable pub generate_mapred_site_xml : HadoopCluster → String
generate_mapred_site_xml cluster = concat (
    "<?xml version=\"1.0\"?>\n" ∷ "<configuration>\n" ∷ "  <property>\n"
    ∷ "    <name>mapreduce.framework.name</name>\n" ∷ "    <value>yarn</value>\n"
    ∷ "  </property>\n" ∷ "  <property>\n" ∷ "    <name>yarn.app.mapreduce.am.env</name>\n"
    ∷ "    <value>HADOOP_MAPRED_HOME=/opt/hadoop</value>\n" ∷ "  </property>\n" ∷ "  <property>\n"
    ∷ "    <name>mapreduce.map.env</name>\n" ∷ "    <value>HADOOP_MAPRED_HOME=/opt/hadoop</value>\n"
    ∷ "  </property>\n" ∷ "  <property>\n" ∷ "    <name>mapreduce.reduce.env</name>\n"
    ∷ "    <value>HADOOP_MAPRED_HOME=/opt/hadoop</value>\n" ∷ "  </property>\n" ∷ "</configuration>"
    ∷ [])

unfoldable pub generate_capacity_scheduler_xml : String
generate_capacity_scheduler_xml = concat (
    "<?xml version=\"1.0\"?>\n" ∷ "<configuration>\n" ∷ "  <property>\n"
    ∷ "    <name>yarn.scheduler.capacity.maximum-applications</name>\n"
    ∷ "    <value>10000</value>\n" ∷ "  </property>\n" ∷ "  <property>\n"
    ∷ "    <name>yarn.scheduler.capacity.maximum-am-resource-percent</name>\n"
    ∷ "    <value>0.1</value>\n" ∷ "  </property>\n" ∷ "  <property>\n"
    ∷ "    <name>yarn.scheduler.capacity.resource-calculator</name>\n"
    ∷ "    <value>org.apache.hadoop.yarn.util.resource.DefaultResourceCalculator</value>\n"
    ∷ "  </property>\n" ∷ "  <property>\n"
    ∷ "    <name>yarn.scheduler.capacity.root.queues</name>\n" ∷ "    <value>default</value>\n"
    ∷ "  </property>\n" ∷ "  <property>\n"
    ∷ "    <name>yarn.scheduler.capacity.root.default.capacity</name>\n"
    ∷ "    <value>100</value>\n" ∷ "  </property>\n" ∷ "  <property>\n"
    ∷ "    <name>yarn.scheduler.capacity.root.default.user-limit-factor</name>\n"
    ∷ "    <value>1</value>\n" ∷ "  </property>\n" ∷ "  <property>\n"
    ∷ "    <name>yarn.scheduler.capacity.root.default.maximum-capacity</name>\n"
    ∷ "    <value>100</value>\n" ∷ "  </property>\n" ∷ "  <property>\n"
    ∷ "    <name>yarn.scheduler.capacity.root.default.state</name>\n"
    ∷ "    <value>RUNNING</value>\n" ∷ "  </property>\n" ∷ "  <property>\n"
    ∷ "    <name>yarn.scheduler.capacity.root.default.acl_submit_applications</name>\n"
    ∷ "    <value>*</value>\n" ∷ "  </property>\n" ∷ "  <property>\n"
    ∷ "    <name>yarn.scheduler.capacity.root.default.acl_administer_queue</name>\n"
    ∷ "    <value>*</value>\n" ∷ "  </property>\n" ∷ "  <property>\n"
    ∷ "    <name>yarn.scheduler.capacity.node-locality-delay</name>\n" ∷ "    <value>40</value>\n"
    ∷ "  </property>\n" ∷ "  <property>\n"
    ∷ "    <name>yarn.scheduler.capacity.root.default.acl_application_max_priority</name>\n"
    ∷ "    <value>*</value>\n" ∷ "  </property>\n" ∷ "  <property>\n"
    ∷ "    <name>yarn.scheduler.capacity.root.default.maximum-application-lifetime</name>\n"
    ∷ "    <value>-1</value>\n" ∷ "  </property>\n" ∷ "  <property>\n"
    ∷ "    <name>yarn.scheduler.capacity.rack-locality-additional-delay</name>\n"
    ∷ "    <value>-1</value>\n" ∷ "  </property>\n" ∷ "</configuration>" ∷ [])

unfoldable pub new_config_map : Env → HadoopCluster → ConfigMap
new_config_map env cluster = record {
  metadata = record {
    name = concat ("hadoop-config-" ∷ cluster.name ∷ []);
    namespace = cluster.namespace;
    labels = ("app", "hadoop") ∷ ("cluster", cluster.name) ∷ [];
    annotations = [];
    owner_references = env.new_controller_ref cluster.name cluster.uid ∷ [];
  };
  contents =
      ("core-site.xml", generate_core_site_xml cluster)
      ∷ ("hdfs-site.xml", generate_hdf_site_xml cluster)
      ∷ ("yarn-site.xml", generate_yarn_site_xml cluster)
      ∷ ("mapred-site.xml", generate_mapred_site_xml cluster)
      ∷ ("capacity-scheduler.xml", generate_capacity_scheduler_xml)
      ∷ [];
}
