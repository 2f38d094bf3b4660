-- ===== src/Webhook.antt =====
-- pkg/webhook: the admission webhook, which adds the agent to pods that opt in.
pub mod Config
pub mod Inject
pub mod Template
mod Precedence
mod Merging
mod Examples
