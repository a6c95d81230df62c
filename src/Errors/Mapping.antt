-- ===== src/Errors/Mapping.antt =====
-- errors/mapping.go: from HTTP status codes to Connect codes, reasons and messages.
pub mod Laws
use ecommerce_gateway.Common.{
  ℕ, ◌-◌, Bool, true, false, ◌&&◌, ◌||◌, Option, none, some, List, [], ◌∷◌, map, Text, bytes,
  text_eq, is_upper, is_lower, is_digit, is_empty, upper_byte, Map, lookup, lookup_or, ◌==◌, leb,
  if◌then◌else◌, chars, trim_space, concat,
}
use ecommerce_gateway.Errors.Codes.{
  Code, canceled, unknown, invalid_argument, deadline_exceeded, not_found, permission_denied,
  resource_exhausted, failed_precondition, aborted, unimplemented, internal, unavailable,
  unauthenticated,
}

-- httpToConnectCode
pub http_to_connect_code : ℕ → Option Code
http_to_connect_code s =
    if s == 400
    then some invalid_argument
    else if s == 401
    then some unauthenticated
    else if s == 403
    then some permission_denied
    else if s == 404
    then some not_found
    else if s == 405
    then some unimplemented
    else if s == 409
    then some aborted
    else if s == 412
    then some failed_precondition
    else if s == 413
    then some resource_exhausted
    else if s == 422
    then some invalid_argument
    else if s == 429
    then some resource_exhausted
    else if s == 499
    then some canceled
    else if s == 500
    then some internal
    else if s == 501
    then some unimplemented
    else if s == 502
    then some unavailable
    else if s == 503
    then some unavailable
    else if s == 504
    then some deadline_exceeded
    else none

pub connect_code_from_http : ℕ → Code
unfolding http_to_connect_code
connect_code_from_http s = elim (http_to_connect_code s) [
  | some code ↦ code
  | none ↦ if leb 500 s then internal else if leb 400 s then invalid_argument else unknown
]

pub reason_from_status : ℕ → Text
reason_from_status s =
    if s == 401
    then bytes "UNAUTHENTICATED"
    else if s == 403
    then bytes "PERMISSION_DENIED"
    else if s == 404
    then bytes "NOT_FOUND"
    else if s == 405
    then bytes "METHOD_NOT_ALLOWED"
    else if (s == 400) || (s == 422)
    then bytes "INVALID_REQUEST"
    else if s == 499
    then bytes "CANCELED"
    else if s == 504
    then bytes "DEADLINE_EXCEEDED"
    else if s == 502
    then bytes "BAD_GATEWAY"
    else if s == 503
    then bytes "SERVICE_UNAVAILABLE"
    else if s == 500
    then bytes "INTERNAL_ERROR"
    else bytes "UNKNOWN_ERROR"

-- The function that NormalizeReason maps over the runes; a rune that is not ASCII is none of its
-- ranges, and becomes one underscore.
reason_rune : Text → ℕ
reason_rune (c ∷ []) = if is_lower c then c - 32 else if is_upper c || is_digit c then c else b'_'
reason_rune _ = b'_'

unfoldable pub normalize_reason : Text → ℕ → Text
unfolding trim_space chars reason_rune text_eq reason_from_status
normalize_reason reason status =
    let normalized = map reason_rune (chars (trim_space reason)) in
    if is_empty normalized || text_eq normalized (bytes "UNKNOWN")
    then reason_from_status status
    else normalized

-- reasonMessages
pub reason_messages : Map Text
reason_messages =
    (bytes "NO_AVAILABLE_NODE", bytes "后端服务暂不可用，请稍后重试")
    ∷ (bytes "NOT_FOUND", bytes "请求的资源不存在")
    ∷ (bytes "METHOD_NOT_ALLOWED", bytes "请求方法不被允许")
    ∷ (bytes "CANCELED", bytes "请求已被取消")
    ∷ (bytes "DEADLINE_EXCEEDED", bytes "请求超时，请稍后重试")
    ∷ (bytes "BAD_GATEWAY", bytes "网关无法连接到后端服务")
    ∷ (bytes "UNKNOWN_ERROR", bytes "服务异常，请稍后重试")
    ∷ (bytes "INVALID_PARAM", bytes "请求参数不合法")
    ∷ (bytes "MISSING_PARAM", bytes "缺少必要的请求参数")
    ∷ (bytes "INVALID_REQUEST", bytes "无效的请求参数")
    ∷ (bytes "UNAUTHENTICATED", bytes "登录状态已失效，请重新登录")
    ∷ (bytes "PERMISSION_DENIED", bytes "权限校验失败，请检查操作权限")
    ∷ (bytes "TOKEN_EXPIRED", bytes "登录已过期，请重新登录")
    ∷ (bytes "INTERNAL_ERROR", bytes "服务内部错误，请稍后重试")
    ∷ (bytes "SERVICE_UNAVAILABLE", bytes "服务暂时不可用，请稍后再试")
    ∷ (bytes "TIMEOUT", bytes "请求超时，请稍后重试")
    ∷ (bytes "AUTH_CHECK_FAILED", bytes "无法验证权限")
    ∷ (bytes "FORBIDDEN_ROUTE", bytes "当前角色无权访问该资源或页面")
    ∷ (bytes "OPERATION_DENIED", bytes "操作权限不足，请联系管理员分配权限")
    ∷ (bytes "INVALID_FILE", bytes "上传文件内容不能为空")
    ∷ (bytes "FILE_READ_ERROR", bytes "文件读取失败")
    ∷ (bytes "DATA_EMPTY", bytes "读取失败：文件内容为空，请检查文件数据")
    ∷ (bytes "JWT_AUTHN_REQUIRED", bytes "未登录或登录已失效，请重新登录")
    ∷ (bytes "MISSING_AUTH_TOKEN", bytes "缺少身份凭证，请重新登录")
    ∷ (bytes "TOKEN_PARSE_FAILED", bytes "身份凭证无效，请重新登录")
    ∷ (bytes "INVALID_TOKEN_CLAIMS", bytes "身份凭证无效，请重新登录")
    ∷ (bytes "INVALID_SIGNING_METHOD", bytes "身份凭证签名方式不受支持")
    ∷ (bytes "PEM_DECODE_FAILED", bytes "服务端证书解析失败")
    ∷ (bytes "CERT_PARSE_FAILED", bytes "服务端证书解析失败")
    ∷ (bytes "NOT_RSA_PUBLIC_KEY", bytes "服务端证书类型错误")
    ∷ []

-- A message of the table that is there and not empty.
message_of : Text → Option Text
message_of reason = elim (lookup reason reason_messages) [
  | none ↦ none
  | some msg ↦ if is_empty msg then none else some msg
]

-- reasonMessages[ReasonUnknown]
unknown_message : Text
unfolding lookup reason_messages
unknown_message = lookup_or (bytes "UNKNOWN_ERROR") [] reason_messages

first_of : Option Text → Option Text → Text → Text
first_of (some msg) other last = msg
first_of none (some msg) last = msg
first_of none none last = last

pub default_message : Text → ℕ → Text
unfolding first_of
default_message reason status =
    first_of (message_of reason) (message_of (reason_from_status status)) unknown_message
