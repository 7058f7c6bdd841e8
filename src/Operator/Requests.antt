-- ===== src/Operator/Requests.antt =====
-- src/operator_service/service/service.cpp, `Handle`: one request of a client, in four parts.
pub mod Access
pub mod Control
pub mod Actions
pub mod Handle
