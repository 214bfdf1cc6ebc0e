-- ===== src/Messages/CreateContexts.antt =====
-- smbprotocol/create_contexts.py: the create contexts without dates and lists.
use smbprotocol.Prelude.{ℕ, List, [], ◌∷◌, true, false, ok, ◌>>=◌, ltb, replicate}
use smbprotocol.Structure.{boolean, Field, bool_field, lambda, fixed, computed}
use smbprotocol.Structure.Walk.{Structure}
use smbprotocol.Structure.Build.{
  value_of, length_of, IntField, EnumField, FlagField, UuidField, BytesField, ComputedInt,
}
use smbprotocol.Header.{nt_status}

-- `LeaseState`
abbrev pub lease_state : List ℕ
lease_state = 0x00 ∷ 0x01 ∷ 0x02 ∷ 0x04 ∷ []

-- `LeaseRequestFlags`
abbrev pub lease_request_flags : List ℕ
lease_request_flags = 0x00000004 ∷ []

-- `LeaseResponseFlags`
abbrev pub lease_response_flags : List ℕ
lease_response_flags = 0x00000002 ∷ 0x00000004 ∷ []

-- `DurableHandleFlags`
abbrev pub durable_handle_flags : List ℕ
durable_handle_flags = 0x00000002 ∷ []

-- `SVHDXOriginatorFlags`
abbrev pub svhdx_originator_flags : List ℕ
svhdx_originator_flags = 0x00000001 ∷ 0x00000004 ∷ []

-- `BoolField(size=1, default=lambda s: len(s["initiator_host_name"]) > 0)`
abbrev has_initiator_id : Field
has_initiator_id = record {
  name = "has_initiator_id";
  kind = bool_field;
  little_endian = true;
  size = fixed 1;
  value = lambda λ s. s.len "initiator_host_name" >>= λ n. ok (boolean (ltb 0 n));
}

-- `SMB2CreateDurableHandleRequest`
unfoldable pub smb2_create_durable_handle_request : Structure
smb2_create_durable_handle_request = BytesField "durable_request" (fixed 16) (replicate 16 0) ∷ []

-- `SMB2CreateDurableHandleResponse`
unfoldable pub smb2_create_durable_handle_response : Structure
smb2_create_durable_handle_response = IntField "reserved" 8 0 ∷ []

-- `SMB2CreateDurableHandleReconnect`
unfoldable pub smb2_create_durable_handle_reconnect : Structure
smb2_create_durable_handle_reconnect = BytesField "data" (fixed 16) [] ∷ []

-- `SMB2CreateQueryMaximalAccessResponse`
unfoldable pub smb2_create_query_maximal_access_response : Structure
smb2_create_query_maximal_access_response =
    EnumField "query_status" 4 nt_status false ∷ IntField "maximal_access" 4 0 ∷ []

-- `SMB2CreateAllocationSize`
unfoldable pub smb2_create_allocation_size : Structure
smb2_create_allocation_size = IntField "allocation_size" 8 0 ∷ []

-- `SMB2CreateRequestLease`
unfoldable pub smb2_create_request_lease : Structure
smb2_create_request_lease =
    BytesField "lease_key" (fixed 16) []
    ∷ FlagField "lease_state" 4 lease_state
    ∷ IntField "lease_flags" 4 0
    ∷ IntField "lease_duration" 8 0
    ∷ []

-- `SMB2CreateResponseLease`
unfoldable pub smb2_create_response_lease : Structure
smb2_create_response_lease =
    BytesField "lease_key" (fixed 16) []
    ∷ FlagField "lease_state" 4 lease_state
    ∷ FlagField "lease_flags" 4 lease_response_flags
    ∷ IntField "lease_duration" 8 0
    ∷ []

-- `SMB2CreateQueryOnDiskIDResponse`
unfoldable pub smb2_create_query_on_disk_id_response : Structure
smb2_create_query_on_disk_id_response =
    IntField "disk_file_id" 8 0
    ∷ IntField "volume_id" 8 0
    ∷ BytesField "reserved" (fixed 16) (replicate 16 0)
    ∷ []

-- `SMB2CreateRequestLeaseV2`
unfoldable pub smb2_create_request_lease_v2 : Structure
smb2_create_request_lease_v2 =
    BytesField "lease_key" (fixed 16) []
    ∷ FlagField "lease_state" 4 lease_state
    ∷ FlagField "lease_flags" 4 lease_request_flags
    ∷ IntField "lease_duration" 8 0
    ∷ BytesField "parent_lease_key" (fixed 16) []
    ∷ BytesField "epoch" (fixed 2) []
    ∷ IntField "reserved" 2 0
    ∷ []

-- `SMB2CreateResponseLeaseV2`
unfoldable pub smb2_create_response_lease_v2 : Structure
smb2_create_response_lease_v2 =
    BytesField "lease_key" (fixed 16) []
    ∷ FlagField "lease_state" 4 lease_state
    ∷ FlagField "flags" 4 lease_response_flags
    ∷ IntField "lease_duration" 8 0
    ∷ BytesField "parent_lease_key" (fixed 16) []
    ∷ IntField "epoch" 2 0
    ∷ IntField "reserved" 2 0
    ∷ []

-- `SMB2CreateDurableHandleRequestV2`
unfoldable pub smb2_create_durable_handle_request_v2 : Structure
smb2_create_durable_handle_request_v2 =
    IntField "timeout" 4 0
    ∷ FlagField "flags" 4 durable_handle_flags
    ∷ IntField "reserved" 8 0
    ∷ UuidField "create_guid"
    ∷ []

-- `SMB2CreateDurableHandleReconnectV2`
unfoldable pub smb2_create_durable_handle_reconnect_v2 : Structure
smb2_create_durable_handle_reconnect_v2 =
    BytesField "file_id" (fixed 16) []
    ∷ UuidField "create_guid"
    ∷ FlagField "flags" 4 durable_handle_flags
    ∷ []

-- `SMB2CreateDurableHandleResponseV2`
unfoldable pub smb2_create_durable_handle_response_v2 : Structure
smb2_create_durable_handle_response_v2 =
    IntField "timeout" 4 0 ∷ FlagField "flags" 4 durable_handle_flags ∷ []

-- `SMB2CreateAppInstanceId`
unfoldable pub smb2_create_app_instance_id : Structure
smb2_create_app_instance_id =
    IntField "structure_size" 2 20
    ∷ IntField "reserved" 2 0
    ∷ BytesField "app_instance_id" (fixed 16) []
    ∷ []

-- `SMB2SVHDXOpenDeviceContextRequest`
unfoldable pub smb2_svhdx_open_device_context_request : Structure
smb2_svhdx_open_device_context_request =
    IntField "version" 4 1
    ∷ has_initiator_id
    ∷ BytesField "reserved" (fixed 3) (0 ∷ 0 ∷ 0 ∷ [])
    ∷ UuidField "initiator_id"
    ∷ EnumField "originator_flags" 4 svhdx_originator_flags true
    ∷ IntField "open_request_id" 8 0
    ∷ ComputedInt "initiator_host_name_length" 2 (length_of "initiator_host_name")
    ∷ BytesField "initiator_host_name" (computed (value_of "initiator_host_name_length")) []
    ∷ []

-- `SMB2SVHDXOpenDeviceContextResponse`
unfoldable pub smb2_svhdx_open_device_context_response : Structure
smb2_svhdx_open_device_context_response =
    IntField "version" 4 1
    ∷ has_initiator_id
    ∷ BytesField "reserved" (fixed 3) (0 ∷ 0 ∷ 0 ∷ [])
    ∷ UuidField "initiator_id"
    ∷ IntField "flags" 4 0
    ∷ EnumField "originator_flags" 4 svhdx_originator_flags true
    ∷ IntField "open_request_id" 8 0
    ∷ ComputedInt "initiator_host_name_length" 2 (length_of "initiator_host_name")
    ∷ BytesField "initiator_host_name" (computed (value_of "initiator_host_name_length")) []
    ∷ []

-- `SMB2SVHDXOpenDeviceContextV2Request`
unfoldable pub smb2_svhdx_open_device_context_v2_request : Structure
smb2_svhdx_open_device_context_v2_request =
    IntField "version" 4 2
    ∷ has_initiator_id
    ∷ BytesField "reserved" (fixed 3) (0 ∷ 0 ∷ 0 ∷ [])
    ∷ UuidField "initiator_id"
    ∷ EnumField "originator_flags" 4 svhdx_originator_flags true
    ∷ IntField "open_request_id" 8 0
    ∷ ComputedInt "initiator_host_name_length" 2 (length_of "initiator_host_name")
    ∷ BytesField "initiator_host_name" (computed (value_of "initiator_host_name_length")) []
    ∷ IntField "virtual_disk_properties_initialized" 4 0
    ∷ IntField "server_service_version" 4 0
    ∷ IntField "virtual_sector_size" 4 0
    ∷ IntField "physical_sector_size" 4 0
    ∷ IntField "virtual_size" 8 0
    ∷ []

-- `SMB2SVHDXOpenDeviceContextV2Response`
unfoldable pub smb2_svhdx_open_device_context_v2_response : Structure
smb2_svhdx_open_device_context_v2_response =
    IntField "version" 4 2
    ∷ has_initiator_id
    ∷ BytesField "reserved" (fixed 3) (0 ∷ 0 ∷ 0 ∷ [])
    ∷ UuidField "initiator_id"
    ∷ IntField "flags" 4 0
    ∷ EnumField "originator_flags" 4 svhdx_originator_flags true
    ∷ IntField "open_request_id" 8 0
    ∷ ComputedInt "initiator_host_name_length" 2 (length_of "initiator_host_name")
    ∷ BytesField "initiator_host_name" (computed (value_of "initiator_host_name_length")) []
    ∷ IntField "virtual_disk_properties_initialized" 4 0
    ∷ IntField "server_service_version" 4 0
    ∷ IntField "virtual_sector_size" 4 0
    ∷ IntField "physical_sector_size" 4 0
    ∷ IntField "virtual_size" 8 0
    ∷ []

-- `SMB2CreateAppInstanceVersion`
unfoldable pub smb2_create_app_instance_version : Structure
smb2_create_app_instance_version =
    IntField "structure_size" 2 24
    ∷ IntField "reserved" 2 0
    ∷ IntField "padding" 4 0
    ∷ IntField "app_instance_version_high" 8 0
    ∷ IntField "app_instance_version_low" 8 0
    ∷ []
