-- ===== src/Cluster.antt =====
-- tools/cluster/cluster: the clustering service of a control node, and its clients.
pub mod Shell
pub mod Daemon
pub mod Client
pub mod AddCompute
pub mod Joined
pub mod Admitted
