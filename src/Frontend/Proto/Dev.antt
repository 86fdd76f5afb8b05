-- ===== src/Frontend/Proto/Dev.antt =====
-- frontend/src/protogen/qlab/dev/v1/dev_pb.ts: the other messages of DevService, and its methods with
-- what goes in and what comes out.
use Prim.Native.String.{◌++◌}
use qlab.Base.{List, String}
use qlab.Frontend.Proto.{
  ProvisionLabRequest, ProvisionLabResponse, MintTokenResponse, LabSummary, GetLabResponse,
}

pub record MintTokenRequest : Type 0 where
  pub user_id : String

pub record ListLabsRequest : Type 0 where
  pub feature : String

pub record ListLabsResponse : Type 0 where
  pub labs : List LabSummary

pub record GetLabRequest : Type 0 where
  pub lab_id : String

pub record TeardownLabRequest : Type 0 where
  pub lab_id : String

pub data TeardownLabResponse : Type 0 where
  torn_down : TeardownLabResponse

pub data DevMethod : Type 0 where
  provision_lab mint_token list_labs get_lab teardown_lab : DevMethod

abbrev pub DevInput : DevMethod → Type 0
DevInput provision_lab = ProvisionLabRequest
DevInput mint_token = MintTokenRequest
DevInput list_labs = ListLabsRequest
DevInput get_lab = GetLabRequest
DevInput teardown_lab = TeardownLabRequest

abbrev pub DevOutput : Type 0 → DevMethod → Type 0
DevOutput T provision_lab = ProvisionLabResponse
DevOutput T mint_token = MintTokenResponse
DevOutput T list_labs = ListLabsResponse
DevOutput T get_lab = GetLabResponse T
DevOutput T teardown_lab = TeardownLabResponse

abbrev pub dev_method_name : DevMethod → String
dev_method_name provision_lab = "ProvisionLab"
dev_method_name mint_token = "MintToken"
dev_method_name list_labs = "ListLabs"
dev_method_name get_lab = "GetLab"
dev_method_name teardown_lab = "TeardownLab"

abbrev pub dev_path : DevMethod → String
dev_path method = "/qlab.dev.v1.DevService/" ++ dev_method_name method
