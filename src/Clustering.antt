-- ===== src/Clustering.antt =====
-- tools/init/init/questions/clustering.py: the questions by which a node joins or makes a cluster.
pub mod Hostname
pub mod ConnectionString
pub mod Roles
pub mod Tls
pub mod Node
