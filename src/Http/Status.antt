-- ===== src/Http/Status.antt =====
-- headers/http/Response.hpp and sources/http/Response.cpp: the status codes.
pub mod Laws
use fion.Prelude.{ℕ}
use fion.Text.{Bytes, codes}

pub data StatusCode : Type 0 where
  continue switching_protocols processing early_hints ok created accepted
        non_authoritative_information :
      StatusCode
  no_content reset_content partial_content multi_status already_reported im_used : StatusCode
  multiple_choices moved_permanently found see_other not_modified use_proxy unused : StatusCode
  temporary_redirect permanent_redirect bad_request unauthorized payment_required : StatusCode
  forbidden not_found method_not_allowed not_acceptable proxy_authentication_required : StatusCode
  request_timeout conflict gone length_required precondition_failed content_too_large : StatusCode
  uri_too_long unsupported_media_type range_not_satisfiable expectation_failed im_a_teapot :
      StatusCode
  misdirected_request unprocessable_content locked failed_dependency too_early upgrade_required :
      StatusCode
  precondition_required too_many_requests request_header_fields_too_large
        unavailable_for_legal_reasons :
      StatusCode
  internal_server_error not_implemented bad_gateway service_unavailable gateway_timeout : StatusCode
  http_version_not_supported variant_also_negotiates insufficient_storage loop_detected : StatusCode
  not_extended network_authentication_required : StatusCode

-- `static_cast<unsigned short>`: the enumerator's number.
unfoldable pub code_of : StatusCode → ℕ
code_of StatusCode.continue = 100
code_of StatusCode.switching_protocols = 101
code_of StatusCode.processing = 102
code_of StatusCode.early_hints = 103
code_of StatusCode.ok = 200
code_of StatusCode.created = 201
code_of StatusCode.accepted = 202
code_of StatusCode.non_authoritative_information = 203
code_of StatusCode.no_content = 204
code_of StatusCode.reset_content = 205
code_of StatusCode.partial_content = 206
code_of StatusCode.multi_status = 207
code_of StatusCode.already_reported = 208
code_of StatusCode.im_used = 226
code_of StatusCode.multiple_choices = 300
code_of StatusCode.moved_permanently = 301
code_of StatusCode.found = 302
code_of StatusCode.see_other = 303
code_of StatusCode.not_modified = 304
code_of StatusCode.use_proxy = 305
code_of StatusCode.unused = 306
code_of StatusCode.temporary_redirect = 307
code_of StatusCode.permanent_redirect = 308
code_of StatusCode.bad_request = 400
code_of StatusCode.unauthorized = 401
code_of StatusCode.payment_required = 402
code_of StatusCode.forbidden = 403
code_of StatusCode.not_found = 404
code_of StatusCode.method_not_allowed = 405
code_of StatusCode.not_acceptable = 406
code_of StatusCode.proxy_authentication_required = 407
code_of StatusCode.request_timeout = 408
code_of StatusCode.conflict = 409
code_of StatusCode.gone = 410
code_of StatusCode.length_required = 411
code_of StatusCode.precondition_failed = 412
code_of StatusCode.content_too_large = 413
code_of StatusCode.uri_too_long = 414
code_of StatusCode.unsupported_media_type = 415
code_of StatusCode.range_not_satisfiable = 416
code_of StatusCode.expectation_failed = 417
code_of StatusCode.im_a_teapot = 418
code_of StatusCode.misdirected_request = 421
code_of StatusCode.unprocessable_content = 422
code_of StatusCode.locked = 423
code_of StatusCode.failed_dependency = 424
code_of StatusCode.too_early = 425
code_of StatusCode.upgrade_required = 426
code_of StatusCode.precondition_required = 428
code_of StatusCode.too_many_requests = 429
code_of StatusCode.request_header_fields_too_large = 431
code_of StatusCode.unavailable_for_legal_reasons = 451
code_of StatusCode.internal_server_error = 500
code_of StatusCode.not_implemented = 501
code_of StatusCode.bad_gateway = 502
code_of StatusCode.service_unavailable = 503
code_of StatusCode.gateway_timeout = 504
code_of StatusCode.http_version_not_supported = 505
code_of StatusCode.variant_also_negotiates = 506
code_of StatusCode.insufficient_storage = 507
code_of StatusCode.loop_detected = 508
code_of StatusCode.not_extended = 510
code_of StatusCode.network_authentication_required = 511

-- The `default` of the source's switch is for values outside the enumeration.
unfoldable pub status_code_to_string : StatusCode → Bytes
status_code_to_string StatusCode.continue = codes "Continue"
status_code_to_string StatusCode.switching_protocols = codes "Switching Protocols"
status_code_to_string StatusCode.processing = codes "Processing"
status_code_to_string StatusCode.early_hints = codes "Early Hints"
status_code_to_string StatusCode.ok = codes "OK"
status_code_to_string StatusCode.created = codes "Created"
status_code_to_string StatusCode.accepted = codes "Accepted"
status_code_to_string StatusCode.non_authoritative_information =
    codes "Non-Authoritative Information"
status_code_to_string StatusCode.no_content = codes "No Content"
status_code_to_string StatusCode.reset_content = codes "Reset Content"
status_code_to_string StatusCode.partial_content = codes "Partial Content"
status_code_to_string StatusCode.multi_status = codes "Multi-Status"
status_code_to_string StatusCode.already_reported = codes "Already Reported"
status_code_to_string StatusCode.im_used = codes "IM Used"
status_code_to_string StatusCode.multiple_choices = codes "Multiple Choices"
status_code_to_string StatusCode.moved_permanently = codes "Moved Permanently"
status_code_to_string StatusCode.found = codes "Found"
status_code_to_string StatusCode.see_other = codes "See Other"
status_code_to_string StatusCode.not_modified = codes "Not Modified"
status_code_to_string StatusCode.use_proxy = codes "Use Proxy"
status_code_to_string StatusCode.unused = codes "Unused"
status_code_to_string StatusCode.temporary_redirect = codes "Temporary Redirect"
status_code_to_string StatusCode.permanent_redirect = codes "Permanent Redirect"
status_code_to_string StatusCode.bad_request = codes "Bad Request"
status_code_to_string StatusCode.unauthorized = codes "Unauthorized"
status_code_to_string StatusCode.payment_required = codes "Payment Required"
status_code_to_string StatusCode.forbidden = codes "Forbidden"
status_code_to_string StatusCode.not_found = codes "Not Found"
status_code_to_string StatusCode.method_not_allowed = codes "Method Not Allowed"
status_code_to_string StatusCode.not_acceptable = codes "Not Acceptable"
status_code_to_string StatusCode.proxy_authentication_required =
    codes "Proxy Authentication Required"
status_code_to_string StatusCode.request_timeout = codes "Request Timeout"
status_code_to_string StatusCode.conflict = codes "Conflict"
status_code_to_string StatusCode.gone = codes "Gone"
status_code_to_string StatusCode.length_required = codes "Length Required"
status_code_to_string StatusCode.precondition_failed = codes "Precondition Failed"
status_code_to_string StatusCode.content_too_large = codes "Content Too Large"
status_code_to_string StatusCode.uri_too_long = codes "URI Too Long"
status_code_to_string StatusCode.unsupported_media_type = codes "Unsupported Media Type"
status_code_to_string StatusCode.range_not_satisfiable = codes "Range Not Satisfiable"
status_code_to_string StatusCode.expectation_failed = codes "Expectation Failed"
status_code_to_string StatusCode.im_a_teapot = codes "I'm a teapot"
status_code_to_string StatusCode.misdirected_request = codes "Misdirected Request"
status_code_to_string StatusCode.unprocessable_content = codes "Unprocessable Content"
status_code_to_string StatusCode.locked = codes "Locked"
status_code_to_string StatusCode.failed_dependency = codes "Failed Dependency"
status_code_to_string StatusCode.too_early = codes "Too Early"
status_code_to_string StatusCode.upgrade_required = codes "Upgrade Required"
status_code_to_string StatusCode.precondition_required = codes "Precondition Required"
status_code_to_string StatusCode.too_many_requests = codes "Too Many Requests"
status_code_to_string StatusCode.request_header_fields_too_large =
    codes "Request Header Fields Too Large"
status_code_to_string StatusCode.unavailable_for_legal_reasons =
    codes "Unavailable For Legal Reasons"
status_code_to_string StatusCode.internal_server_error = codes "Internal Server Error"
status_code_to_string StatusCode.not_implemented = codes "Not Implemented"
status_code_to_string StatusCode.bad_gateway = codes "Bad Gateway"
status_code_to_string StatusCode.service_unavailable = codes "Service Unavailable"
status_code_to_string StatusCode.gateway_timeout = codes "Gateway Timeout"
status_code_to_string StatusCode.http_version_not_supported = codes "HTTP Version Not Supported"
status_code_to_string StatusCode.variant_also_negotiates = codes "Variant Also Negotiates"
status_code_to_string StatusCode.insufficient_storage = codes "Insufficient Storage"
status_code_to_string StatusCode.loop_detected = codes "Loop Detected"
status_code_to_string StatusCode.not_extended = codes "Not Extended"
status_code_to_string StatusCode.network_authentication_required =
    codes "Network Authentication Required"
