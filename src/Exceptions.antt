-- ===== src/Exceptions.antt =====
-- smbprotocol/exceptions.py: the registry of exception classes by status, and the error numbers of
-- SMBOSError.
pub mod Laws
pub mod Runs
use smbprotocol.Prelude.{
  ℕ, List, [], ◌∷◌, Option, some, none, Result, ok, err, Dict, lookup, put, attribute_error,
}

-- `SMBResponseException` and the classes that inherit from it.
pub data ResponseClass : Type 0 where
  smb_response_exception : ResponseClass
  unsuccessful network_name_delegated status_pending notify_cleanup notify_enum_dir : ResponseClass
  buffer_overflow no_more_files end_of_file invalid_ea_name ea_list_inconsistent : ResponseClass
  stopped_on_symlink invalid_info_class info_length_mismatch invalid_parameter no_such_file :
      ResponseClass
  invalid_device_request more_processing_required access_denied buffer_too_small : ResponseClass
  object_name_invalid object_name_not_found object_name_collision object_path_invalid :
      ResponseClass
  object_path_not_found object_path_syntax_bad sharing_violation eas_not_supported ea_too_large :
      ResponseClass
  non_existent_ea_entry no_eas_on_file ea_corrupt_error delete_pending privilege_not_held :
      ResponseClass
  wrong_password logon_failure password_expired none_mapped insufficient_resources : ResponseClass
  pipe_not_available pipe_busy pipe_closing io_timeout pipe_disconnected file_is_a_directory :
      ResponseClass
  not_supported bad_network_name request_not_accepted pipe_empty internal_error : ResponseClass
  directory_not_empty status_not_a_directory cancelled cannot_delete file_closed pipe_broken :
      ResponseClass
  fs_driver_required user_session_deleted insuff_server_resources not_found path_not_covered :
      ResponseClass
  dfs_unavailable not_a_reparse_point server_unavailable : ResponseClass

-- `_STATUS_CODE`, which the base class has not.
unfoldable pub status_code : ResponseClass → Option ℕ
status_code smb_response_exception = none
status_code unsuccessful = some 0xC0000001
status_code network_name_delegated = some 0xC00000C9
status_code status_pending = some 0x00000103
status_code notify_cleanup = some 0x0000010B
status_code notify_enum_dir = some 0x0000010C
status_code buffer_overflow = some 0x80000005
status_code no_more_files = some 0x80000006
status_code end_of_file = some 0xC0000011
status_code invalid_ea_name = some 0x80000013
status_code ea_list_inconsistent = some 0x80000014
status_code stopped_on_symlink = some 0x8000002D
status_code invalid_info_class = some 0xC0000003
status_code info_length_mismatch = some 0xC0000004
status_code invalid_parameter = some 0xC000000D
status_code no_such_file = some 0xC000000F
status_code invalid_device_request = some 0xC0000010
status_code more_processing_required = some 0xC0000016
status_code access_denied = some 0xC0000022
status_code buffer_too_small = some 0xC0000023
status_code object_name_invalid = some 0xC0000033
status_code object_name_not_found = some 0xC0000034
status_code object_name_collision = some 0xC0000035
status_code object_path_invalid = some 0xC0000039
status_code object_path_not_found = some 0xC000003A
status_code object_path_syntax_bad = some 0xC000003B
status_code sharing_violation = some 0xC0000043
status_code eas_not_supported = some 0xC000004F
status_code ea_too_large = some 0xC0000050
status_code non_existent_ea_entry = some 0xC0000051
status_code no_eas_on_file = some 0xC0000052
status_code ea_corrupt_error = some 0xC0000053
status_code delete_pending = some 0xC0000056
status_code privilege_not_held = some 0xC0000061
status_code wrong_password = some 0xC000006A
status_code logon_failure = some 0xC000006D
status_code password_expired = some 0xC0000071
status_code none_mapped = some 0xC0000073
status_code insufficient_resources = some 0xC000009A
status_code pipe_not_available = some 0xC00000AC
status_code pipe_busy = some 0xC00000AE
status_code pipe_closing = some 0xC00000B1
status_code io_timeout = some 0xC00000B5
status_code pipe_disconnected = some 0xC00000B0
status_code file_is_a_directory = some 0xC00000BA
status_code not_supported = some 0xC00000BB
status_code bad_network_name = some 0xC00000CC
status_code request_not_accepted = some 0xC00000D0
status_code pipe_empty = some 0xC00000D9
status_code internal_error = some 0xC00000E5
status_code directory_not_empty = some 0xC0000101
status_code status_not_a_directory = some 0xC0000103
status_code cancelled = some 0xC0000120
status_code cannot_delete = some 0xC0000121
status_code file_closed = some 0xC0000128
status_code pipe_broken = some 0xC000014B
status_code fs_driver_required = some 0xC000019C
status_code user_session_deleted = some 0xC0000203
status_code insuff_server_resources = some 0xC0000205
status_code not_found = some 0xC0000225
status_code path_not_covered = some 0xC0000257
status_code dfs_unavailable = some 0xC000026D
status_code not_a_reparse_point = some 0xC0000275
status_code server_unavailable = some 0xC0000466

-- The classes in the order in which the module defines them.
abbrev pub response_classes : List ResponseClass
response_classes =
    smb_response_exception ∷ unsuccessful ∷ network_name_delegated ∷ status_pending ∷ notify_cleanup
    ∷ notify_enum_dir ∷ buffer_overflow ∷ no_more_files ∷ end_of_file ∷ invalid_ea_name
    ∷ ea_list_inconsistent ∷ stopped_on_symlink ∷ invalid_info_class ∷ info_length_mismatch
    ∷ invalid_parameter ∷ no_such_file ∷ invalid_device_request ∷ more_processing_required
    ∷ access_denied ∷ buffer_too_small ∷ object_name_invalid ∷ object_name_not_found
    ∷ object_name_collision ∷ object_path_invalid ∷ object_path_not_found ∷ object_path_syntax_bad
    ∷ sharing_violation ∷ eas_not_supported ∷ ea_too_large ∷ non_existent_ea_entry ∷ no_eas_on_file
    ∷ ea_corrupt_error ∷ delete_pending ∷ privilege_not_held ∷ wrong_password ∷ logon_failure
    ∷ password_expired ∷ none_mapped ∷ insufficient_resources ∷ pipe_not_available ∷ pipe_busy
    ∷ pipe_closing ∷ io_timeout ∷ pipe_disconnected ∷ file_is_a_directory ∷ not_supported
    ∷ bad_network_name ∷ request_not_accepted ∷ pipe_empty ∷ internal_error ∷ directory_not_empty
    ∷ status_not_a_directory ∷ cancelled ∷ cannot_delete ∷ file_closed ∷ pipe_broken
    ∷ fs_driver_required ∷ user_session_deleted ∷ insuff_server_resources ∷ not_found
    ∷ path_not_covered ∷ dfs_unavailable ∷ not_a_reparse_point ∷ server_unavailable ∷ []

-- `__init__` of `_SMBErrorRegistry`: a class with a status is registered under it.
unfoldable pub register : ResponseClass → Dict ResponseClass → Dict ResponseClass
unfolding put
register cls registry = elim (status_code cls) [
  | none ↦ registry
  | some status ↦ put status cls registry
]

unfoldable pub register_all : List ResponseClass → Dict ResponseClass → Dict ResponseClass
unfolding register
register_all [] registry = registry
register_all (cls ∷ classes) registry = register_all classes (register cls registry)

-- `__registry` when the module is loaded.
unfoldable pub registry : Dict ResponseClass
unfolding register_all
registry = register_all response_classes []

-- `__call__` of `_SMBErrorRegistry`: the class and the status of the exception that it makes, given the
-- status of a header or none.
unfoldable pub call : ResponseClass → Option ℕ → Result (ResponseClass × ℕ)
unfolding lookup
call cls (some status) = elim (lookup status registry) [
  | none ↦ ok (cls, status)
  | some found ↦ ok (found, status)
]
call cls none = elim (status_code cls) [
  | none ↦ err attribute_error
  | some status ↦ ok (cls, status)
]

-- The numbers of the errno module that SMBOSError takes.
pub data Errno : Type 0 where
  enoent eexist eacces eperm einval eisdir enotdir enotempty enodata : Errno

-- The error number that `SMBOSError` gives a status; none stands for the number 0.
unfoldable pub error_details : ℕ → Option Errno
unfolding lookup
error_details ntstatus = lookup ntstatus (
    (0xC0000034, enoent)
    ∷ (0xC000003A, enoent)
    ∷ (0xC0000225, enoent)
    ∷ (0xC0000035, eexist)
    ∷ (0xC0000061, eacces)
    ∷ (0xC0000043, eperm)
    ∷ (0xC0000275, einval)
    ∷ (0xC00000BA, eisdir)
    ∷ (0xC0000103, enotdir)
    ∷ (0xC0000101, enotempty)
    ∷ (0xC0000011, enodata)
    ∷ [])
