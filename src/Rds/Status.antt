-- ===== src/Rds/Status.antt =====
-- rds/aws_rds.go: the constants of `RDSInstanceStatus`, which are texts.
use componator_aws_providers.Prelude.{String}

-- Deployment and modification states.
abbrev pub creating : String
creating = "creating"

abbrev pub modifying : String
modifying = "modifying"

abbrev pub upgrading : String
upgrading = "upgrading"

abbrev pub renaming : String
renaming = "renaming"

abbrev pub resetting_master_credentials : String
resetting_master_credentials = "resetting-master-credentials"

-- Operational healthy states.
abbrev pub available : String
available = "available"

abbrev pub storage_optimization : String
storage_optimization = "storage-optimization"

abbrev pub backing_up : String
backing_up = "backing-up"

abbrev pub configuring_enhanced_monitoring : String
configuring_enhanced_monitoring = "configuring-enhanced-monitoring"

abbrev pub configuring_iam_database_auth : String
configuring_iam_database_auth = "configuring-iam-database-auth"

abbrev pub configuring_log_exports : String
configuring_log_exports = "configuring-log-exports"

-- Operational degraded states.
abbrev pub maintenance : String
maintenance = "maintenance"

abbrev pub rebooting : String
rebooting = "rebooting"

abbrev pub starting : String
starting = "starting"

abbrev pub stopped : String
stopped = "stopped"

abbrev pub stopping : String
stopping = "stopping"

abbrev pub storage_full : String
storage_full = "storage-full"

-- Failed states.
abbrev pub failed : String
failed = "failed"

abbrev pub inaccessible_encryption_credentials : String
inaccessible_encryption_credentials = "inaccessible-encryption-credentials"

abbrev pub incompatible_network : String
incompatible_network = "incompatible-network"

abbrev pub incompatible_option_group : String
incompatible_option_group = "incompatible-option-group"

abbrev pub incompatible_parameters : String
incompatible_parameters = "incompatible-parameters"

abbrev pub incompatible_restore : String
incompatible_restore = "incompatible-restore"

abbrev pub insufficient_capacity : String
insufficient_capacity = "insufficient-capacity"

-- Deletion states.
abbrev pub deleting : String
deleting = "deleting"
