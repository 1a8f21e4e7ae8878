-- ===== src/Registration.antt =====
-- What the `Register` functions of the four packages share. The Kubernetes and AWS libraries that they
-- call are not part of the repository: their operations are parameters over the world.
use componator_aws_providers.Prelude.{String, [], ◌==◌, if◌then◌else◌}
use componator_aws_providers.Go.{GoError, wrapf}
use componator_aws_providers.Go.Flow.{Proc, ◌>>◌, ◌or_return◌}

-- `AddToScheme` of client-go and of the component API, and `LoadDefaultConfig` of the AWS SDK.
pub record Platform (W Config : Type 0) : Type 0 where
  pub add_client_go_to_scheme : Proc W GoError (Unit {0})
  pub add_component_to_scheme : Proc W GoError (Unit {0})
  pub load_default_config : Proc W GoError Config

-- The name that `Register` hands to the builder, for the package's default name.
unfoldable pub registered_name : String → String → String
registered_name default provider_name = if provider_name == "" then default else provider_name

-- `Register` up to the AWS configuration.
unfoldable pub load_config : {W Config : Type 0} → Platform W Config → Proc W GoError Config
load_config platform = do
  platform.add_client_go_to_scheme
  platform.add_component_to_scheme
  platform.load_default_config or_return wrapf "failed to load AWS configuration: %w" []
