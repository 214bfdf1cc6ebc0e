-- ===== src/Exceptions/Runs.antt =====
-- smbprotocol/exceptions.py: the classes and error numbers of some statuses.
use smbprotocol.Prelude.{◌≡◌, refl, none, some, ok, err, lookup, put, attribute_error}
use smbprotocol.Exceptions.{
  smb_response_exception, access_denied, end_of_file, server_unavailable, enodata, eperm, call,
  status_code, register, register_all, registry, error_details,
}

a_known_status : call smb_response_exception (some 0xC0000022) ≡ ok (access_denied, 0xC0000022)
unfolding call registry register_all register status_code lookup put
a_known_status = refl

the_last_class : call smb_response_exception (some 0xC0000466) ≡ ok (server_unavailable, 0xC0000466)
unfolding call registry register_all register status_code lookup put
the_last_class = refl

an_unknown_status :
    call smb_response_exception (some 0xC0000001000) ≡ ok (smb_response_exception, 0xC0000001000)
unfolding call registry register_all register status_code lookup put
an_unknown_status = refl

without_header : call end_of_file none ≡ ok (end_of_file, 0xC0000011)
unfolding call status_code
without_header = refl

base_without_header : call smb_response_exception none ≡ err attribute_error
unfolding call status_code
base_without_header = refl

sharing_violation : error_details 0xC0000043 ≡ some eperm
unfolding error_details lookup
sharing_violation = refl

no_data : error_details 0xC0000011 ≡ some enodata
unfolding error_details lookup
no_data = refl

no_number : error_details 0xC0000022 ≡ none
unfolding error_details lookup
no_number = refl
